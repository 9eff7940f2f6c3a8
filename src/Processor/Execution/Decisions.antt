-- ===== src/Processor/Execution/Decisions.antt =====
-- What it means that a scheduler commits or aborts a transaction.
use database_concurrency_con.Prelude.{
  ℕ, ◌+◌, ◌≡◌, refl, ◌∙◌, List, [], ◌∷◌, ◌++◌, find, find_absent, keys, Distinct, arith,
}
use database_concurrency_con.Txn.{committed, aborted}
use database_concurrency_con.TxnTypes.Effects.{or_else}
use database_concurrency_con.Storage.{Storage, write}
use database_concurrency_con.Atomic.Queue.{push}
use database_concurrency_con.Processor.Objects.{Shared, txn_at}
use database_concurrency_con.Processor.Execution.{apply_writes, commit_txn, abort_txn}

-- The storage has taken on every pair of the map, and no other value has changed.
abbrev Applied : List (ℕ × ℕ) → Storage → Storage → Type 0
Applied writes st st' = (k : ℕ) → st'.values k ≡ or_else (find k writes) (st.values k)

-- The client gets the transaction, as committed; its writes are in the storage.
abbrev pub IsCommit : ℕ → Shared → Storage → Shared → Storage → Type 0
IsCommit t s st s' st' =
    ((txn_at s' t).status ≡ committed)
    × Applied (txn_at s t).writes st st'
    × (s'.txn_results ≡ s.txn_results ++ t ∷ [])
    × (s'.txn_requests ≡ s.txn_requests)

-- The client gets the transaction, as aborted; the storage is as it was.
abbrev pub IsAbort : ℕ → Shared → Storage → Shared → Storage → Type 0
IsAbort t s st s' st' =
    ((txn_at s' t).status ≡ aborted)
    × (st' ≡ st)
    × (s'.txn_results ≡ s.txn_results ++ t ∷ [])
    × (s'.txn_requests ≡ s.txn_requests)

pub apply_writes-Applied :
    (times : ℕ → ℕ) (writes : List (ℕ × ℕ)) (ticks : ℕ) (st : Storage)
    → Distinct (keys writes)
    → Applied writes st (apply_writes times writes ticks st).0
unfolding apply_writes write find
apply_writes-Applied times [] ticks st d k = refl
apply_writes-Applied times ((j, v) ∷ writes) ticks st d k =
    apply_writes-Applied times writes (ticks + 1) (write j v (times ticks) st) d.1 k
    ∙ ground (arith, find_absent k writes, d.0)

pub commit_txn-IsCommit :
    (times : ℕ → ℕ) (t : ℕ) (s : Shared) (st : Storage)
    → Distinct (keys (txn_at s t).writes)
    → IsCommit t s st (commit_txn times t s st).0 (commit_txn times t s st).1
unfolding commit_txn push
commit_txn-IsCommit times t s st d =
    (ground arith, apply_writes-Applied times (txn_at s t).writes s.ticks st d, refl, refl)

pub abort_txn-IsAbort : (t : ℕ) (s : Shared) (st : Storage) → IsAbort t s st (abort_txn t s) st
unfolding abort_txn push
abort_txn-IsAbort t s st = (ground arith, refl, refl, refl)
