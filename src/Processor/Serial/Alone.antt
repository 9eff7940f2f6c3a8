-- ===== src/Processor/Serial/Alone.antt =====
-- The serial scheduler: each transaction runs alone, to its commit or its abort.
use database_concurrency_con.Prelude.{
  ℕ, ◌+◌, ◌≡◌, ◌⊎◌, inl, inr, refl, [], keys, Distinct, arith, done,
}
use database_concurrency_con.Txn.{Txn, completed_c, completed_a}
use database_concurrency_con.TxnTypes.{Logic, run}
use database_concurrency_con.TxnTypes.Keeps.{run-IsVote, IsVote, Outcome-cases}
use database_concurrency_con.Storage.{Storage}
use database_concurrency_con.Atomic.Queue.{push}
use database_concurrency_con.Processor.Objects.{Shared, txn_at, set_txn}
use database_concurrency_con.Processor.Execution.{
  read_phase, execute_txn, execute, commit_txn, abort_txn,
}
use database_concurrency_con.Processor.Execution.Decisions.{
  IsCommit, IsAbort, commit_txn-IsCommit, abort_txn-IsAbort,
}
use database_concurrency_con.Processor.Serial.{serial_decide, serial_txn}

-- `ran` is what the transaction becomes when it reads the storage `st` and runs.
abbrev pub RunsTo : ℕ → Logic → Storage → Txn → Txn → Type 0
RunsTo start logic st t ran = execute_txn (λ _. []) start logic st t ≡ done (st, ran)

execute_txn-IsVote :
    (start : ℕ) (logic : Logic) (st : Storage) (t ran : Txn)
    → RunsTo start logic st t ran
    → IsVote ran.status
unfolding execute_txn
execute_txn-IsVote start logic st t ran e = elim (Outcome-cases (run logic t')) [
  | inl e' ↦ ground (arith, rw e' at e)
  | inr (ran', e') ↦ ground (arith, rw e' at e, run-IsVote logic t' ran' e')
]
  where
    t' : Txn
    t' = (read_phase (λ _. []) start st t).1

-- The state when the transaction has run.
abbrev executed : ℕ → Txn → Shared → Shared
executed t ran s = record (set_txn t ran s) {
  ticks = s.ticks + 1;
  completed_txns = push t s.completed_txns;
}

serial_decide-cases :
    (times : ℕ → ℕ) (t : ℕ) (s : Shared) (st : Storage) (ran : Txn)
    → txn_at s t ≡ ran
    → IsVote ran.status
    → Distinct (keys ran.writes)
    → (s' : Shared) × (st' : Storage) × (serial_decide times (txn_at s t).status t s st
        ≡ done (s', st'))
      × ((ran.status ≡ completed_c) × IsCommit t s st s' st'
          ⊎ (ran.status ≡ completed_a) × IsAbort t s st s' st')
unfolding serial_decide
serial_decide-cases times t s st ran e (inl vote) d = (
  (commit_txn times t s st).0,
  (commit_txn times t s st).1,
  rw (e, vote) refl,
  inl (vote, commit_txn-IsCommit times t s st (rw e d)),
)
serial_decide-cases times t s st ran e (inr vote) d =
    (abort_txn t s, st, rw (e, vote) refl, inr (vote, abort_txn-IsAbort t s st))

-- A transaction that runs to `ran`, whose pending writes have distinct keys, is given back to the
-- client: as committed if it voted to commit, and then the storage has exactly its writes; as
-- aborted otherwise, and then the storage is unchanged. It is not restarted.
pub serial_txn-cases :
    (times : ℕ → ℕ) (t : ℕ) (s : Shared) (st : Storage) (ran : Txn)
    → RunsTo (times s.ticks) (s.objects t).logic st (txn_at s t) ran
    → Distinct (keys ran.writes)
    → (s' : Shared) × (st' : Storage) × (serial_txn times t s st ≡ done (s', st'))
      × (let s₁ = set_txn t ran s in
          (ran.status ≡ completed_c) × IsCommit t s₁ st s' st'
          ⊎ (ran.status ≡ completed_a) × IsAbort t s₁ st s' st')
unfolding serial_txn execute
serial_txn-cases times t s st ran e d = rw e (
    serial_decide-cases times t (executed t ran s) st ran (ground arith)
      (execute_txn-IsVote (times s.ticks) (s.objects t).logic st (txn_at s t) ran e) d)
