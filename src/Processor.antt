-- ===== src/Processor.antt =====
-- txn/txn_processor.h and txn/txn_processor.cc: the transaction processor in its six modes.
pub mod Construction
pub mod Objects
pub mod Execution
pub mod Workers
pub mod Serial
pub mod Serializability
pub mod Exclusive
pub mod Occ
pub mod Mvcc
pub mod Locking
