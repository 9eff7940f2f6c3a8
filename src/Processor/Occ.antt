-- ===== src/Processor/Occ.antt =====
-- txn/txn_processor.cc: `RunOCCScheduler`.
pub mod Validation
pub mod Finish
pub mod System
pub mod Progress
pub mod Invariant
pub mod Preservation
pub mod Histories
pub mod Origins
pub mod Provenance
use database_concurrency_con.Prelude.{
  ℕ, zero, suc, ◌+◌, Bool, true, false, ◌&&◌, List, [], ◌∷◌, ◌++◌, Option, none, some, ltb,
  if◌then◌else◌, Outcome, done, died, ◌>>=◌,
}
use database_concurrency_con.Txn.{
  Txn, TxnStatus, incomplete, completed_c, completed_a, committed, aborted,
}
use database_concurrency_con.Storage.{Storage}
use database_concurrency_con.Storage
use database_concurrency_con.Atomic.Queue.{push, pop}
use database_concurrency_con.Processor.Objects.{Shared, txn_at, set_txn, new_txn_request}
use database_concurrency_con.Processor.Execution.{commit_txn, abort_txn}

-- One of the two validation loops; `valid` is the flag before it, which the loop can only clear.
unfoldable pub check_times : ℕ → List ℕ → Storage → Bool → Bool
check_times start [] s valid = valid
check_times start (k ∷ ks) s valid =
    let rest = check_times start ks s valid in
    if ltb start (Storage.timestamp k s) then false else rest

-- The flag `valid` behind both loops.
unfoldable pub is_valid : Txn → Storage → Bool
is_valid t st =
    check_times t.occ_start_time t.writeset st (check_times t.occ_start_time t.readset st true)

-- The restart of a transaction that is not valid. `reads_.empty()` and `writes_.empty()` only ask
-- whether the maps are empty, and change nothing.
pub restart : ℕ → Shared → Shared
restart t s = new_txn_request t (set_txn t (record (txn_at s t) { status = incomplete }) s)

-- The chain of `if`s for a finished transaction.
unfoldable pub occ_decide :
    (ℕ → ℕ) → TxnStatus → Bool → ℕ → Shared → Storage → Outcome (Shared × Storage)
occ_decide times completed_a valid t s st = done (abort_txn t s, st)
occ_decide times completed_c true t s st = done (commit_txn times t s st)
occ_decide times completed_c false t s st = done (restart t s, st)
occ_decide times incomplete valid t s st = died
occ_decide times committed valid t s st = died
occ_decide times aborted valid t s st = died

-- The body of the inner loop, for the finished transaction that was popped.
unfoldable pub occ_finish : (ℕ → ℕ) → ℕ → Shared → Storage → Outcome (Shared × Storage)
occ_finish times t s st = occ_decide times (txn_at s t).status (is_valid (txn_at s t) st) t s st

-- The inner loop, over the transactions that have finished.
unfoldable occ_finish_all : (ℕ → ℕ) → List ℕ → Shared → Storage → Outcome (Shared × Storage)
occ_finish_all times [] s st = done (s, st)
occ_finish_all times (t ∷ ts) s st = do
  (s', st') ← occ_finish times t s st
  occ_finish_all times ts s' st'

-- A round of the outer loop: the request that is handed to the thread pool, if there is one, and
-- then every transaction that has finished when the inner loop starts. One that finishes later is
-- taken to finish before the next round.
unfoldable occ_round : (ℕ → ℕ) → Shared → Storage → Outcome (Option ℕ × Shared × Storage)
occ_round times s st = do
  let (task, q) = pop s.txn_requests
  let finished = s.completed_txns
  (s', st') ← occ_finish_all times finished (record s { txn_requests = q; completed_txns = [] }) st
  done (task, s', st')
