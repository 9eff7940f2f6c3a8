-- ===== src/LockManager.antt =====
-- txn/lock_manager.h and txn/lock_manager.cc.
pub mod Requests
pub mod Granted
pub mod ManagerA
pub mod ManagerB
pub mod Interface
pub mod Implementations
