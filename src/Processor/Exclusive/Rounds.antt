-- ===== src/Processor/Exclusive/Rounds.antt =====
-- The exclusive scheduler: a round of the loop of `RunLockingScheduler` is a series of its steps.
use database_concurrency_con.Storage.{Storage}
use database_concurrency_con.Processor.Exclusive.System.{System}
