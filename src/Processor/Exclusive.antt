-- ===== src/Processor/Exclusive.antt =====
-- txn/txn_processor.cc: the mode LOCKING_EXCLUSIVE_ONLY, `RunLockingScheduler` over LockManagerA.
pub mod Deques
pub mod Acquires
pub mod Orderly
pub mod Wakes
pub mod Views
pub mod Starts
pub mod Arrivals
pub mod System
pub mod Progress
pub mod Moves
pub mod Invariant
pub mod WorkerSteps
pub mod StartSteps
pub mod FinishSteps
pub mod Histories
pub mod Rounds
