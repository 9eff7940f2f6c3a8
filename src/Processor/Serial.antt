-- ===== src/Processor/Serial.antt =====
-- txn/txn_processor.cc: `RunSerialScheduler`, which `RunOCCParallelScheduler` calls too.
pub mod Alone
use database_concurrency_con.Prelude.{ℕ, List, [], Option, none, some, Outcome, done, died, ◌>>=◌}
use database_concurrency_con.Txn.{
  Txn, TxnStatus, incomplete, completed_c, completed_a, committed, aborted,
}
use database_concurrency_con.Storage.{Storage}
use database_concurrency_con.Atomic.Queue.{pop}
use database_concurrency_con.Processor.Objects.{Shared, txn_at}
use database_concurrency_con.Processor.Execution.{execute, commit_txn, abort_txn}

-- What is done with an executed transaction, by its status.
pub serial_decide : (ℕ → ℕ) → TxnStatus → ℕ → Shared → Storage → Outcome (Shared × Storage)
serial_decide times completed_c t s st = done (commit_txn times t s st)
serial_decide times completed_a t s st = done (abort_txn t s, st)
serial_decide times incomplete t s st = died
serial_decide times committed t s st = died
serial_decide times aborted t s st = died

-- The body of the `if`, for the request that was popped. No other thread uses the storage.
pub serial_txn : (ℕ → ℕ) → ℕ → Shared → Storage → Outcome (Shared × Storage)
serial_txn times t s st = do
  (s', st') ← execute times (λ _. []) t s st
  serial_decide times (txn_at s' t).status t s' st'

-- A round of the loop of `RunSerialScheduler`.
unfoldable serial_round : (ℕ → ℕ) → Shared → Storage → Outcome (Shared × Storage)
serial_round times s st =
    let (t, q) = pop s.txn_requests in
    elim t [ none ↦ done (s, st) | some t ↦ serial_txn times t (record s { txn_requests = q }) st ]
