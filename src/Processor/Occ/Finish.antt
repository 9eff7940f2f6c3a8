-- ===== src/Processor/Occ/Finish.antt =====
-- The optimistic scheduler: what becomes of an executed transaction.
use database_concurrency_con.Prelude.{
  ℕ, ◌≡◌, ◌⊎◌, inl, inr, refl, true, false, Bool-cases, [], ◌∷◌, ◌++◌, keys, Distinct, ==_self,
  arith, done,
}
use database_concurrency_con.Txn.{incomplete, completed_c, completed_a}
use database_concurrency_con.Storage.{Storage}
use database_concurrency_con.Atomic.Queue.{push}
use database_concurrency_con.Processor.Objects.{Shared, txn_at, new_txn_request}
use database_concurrency_con.Processor.Execution.Decisions.{
  IsCommit, IsAbort, commit_txn-IsCommit, abort_txn-IsAbort,
}
use database_concurrency_con.Processor.Execution.{commit_txn, abort_txn}
use database_concurrency_con.Processor.Occ.{is_valid, restart, occ_decide, occ_finish}

-- The transaction is requested again under a new id. It keeps what it read and what it wanted to
-- write.
abbrev pub IsRestart : ℕ → Shared → Storage → Shared → Storage → Type 0
IsRestart t s st s' st' =
    (st' ≡ st)
    × (s'.txn_results ≡ s.txn_results)
    × (s'.txn_requests ≡ s.txn_requests ++ t ∷ [])
    × (txn_at s' t ≡ record (txn_at s t) { status = incomplete; unique_id = s.next_unique_id })

restart-IsRestart : (t : ℕ) (s : Shared) (st : Storage) → IsRestart t s st (restart t s) st
unfolding restart new_txn_request push
restart-IsRestart t s st = (refl, refl, refl, ground (arith, ==_self t))

-- An executed transaction, whose pending writes have distinct keys, never ends the process. If it
-- voted to abort it is aborted. If it voted to commit it commits when it is valid, and restarts when
-- it is not; then its reads and its pending writes are not cleared.
pub occ_finish-cases :
    (times : ℕ → ℕ) (t : ℕ) (s : Shared) (st : Storage)
    → Distinct (keys (txn_at s t).writes)
    → ((txn_at s t).status ≡ completed_c) ⊎ ((txn_at s t).status ≡ completed_a)
    → (s' : Shared) × (st' : Storage) × (occ_finish times t s st ≡ done (s', st'))
      × (((txn_at s t).status ≡ completed_a) × IsAbort t s st s' st'
          ⊎ ((txn_at s t).status ≡ completed_c)
            × (is_valid (txn_at s t) st ≡ true)
            × IsCommit t s st s' st'
          ⊎ ((txn_at s t).status ≡ completed_c)
            × (is_valid (txn_at s t) st ≡ false)
            × IsRestart t s st s' st')
unfolding occ_finish occ_decide
occ_finish-cases times t s st d (inr e) =
    (abort_txn t s, st, rw e refl, inl (e, abort_txn-IsAbort t s st))
occ_finish-cases times t s st d (inl e) = elim (Bool-cases (is_valid (txn_at s t) st)) [
  | inl v ↦ (
    (commit_txn times t s st).0,
    (commit_txn times t s st).1,
    rw (e, v) refl,
    inr (inl (e, v, commit_txn-IsCommit times t s st d)),
  )
  | inr v ↦ (restart t s, st, rw (e, v) refl, inr (inr (e, v, restart-IsRestart t s st)))
]
