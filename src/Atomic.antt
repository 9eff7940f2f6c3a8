-- ===== src/Atomic.antt =====
-- utils/atomic.h: the containers that a mutex guards. Each method locks the mutex, does its work
-- and unlocks it, so that a method is one step of the container. A TryLock may find the mutex
-- locked; then the method does nothing.
pub mod Queue
pub mod Keyed
pub mod Cell
pub mod Fifo
