-- ===== src/Examples.antt =====
-- Tests, and examples of the theorems at concrete inputs.
mod Locks
mod Storages
mod Txns
mod Schedulers
mod Histories
mod Locked
mod Processors
mod Calls
mod Condition
mod Pools
mod Versions
mod Utils
