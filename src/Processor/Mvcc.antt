-- ===== src/Processor/Mvcc.antt =====
-- txn/txn_processor.cc: `RunMVCCScheduler` and `MVCCExecuteTxn`. Other threads may use the storage
-- before each call of it that locks a key: `others i` is what they do before call number `i`.
-- `none` means that a call does not return, since its mutex is not free then.
pub mod Locks
pub mod Commits
pub mod Mutexes
pub mod System
pub mod Stages
pub mod Invariant
pub mod Preservation
pub mod Progress
pub mod Deadlock
pub mod Measure
pub mod Restarts
use database_concurrency_con.Prelude.{
  ℕ, zero, suc, ◌+◌, Bool, true, false, ◌&&◌, List, [], ◌∷◌, ◌++◌, Option, none, some, assign,
  length, if◌then◌else◌, Outcome, done, died,
}
use mathlib.Core.Option
use database_concurrency_con.Txn.{Txn, TxnStatus, incomplete, committed}
use database_concurrency_con.MvccStorage.{MvccStorage}
use database_concurrency_con.MvccStorage
use database_concurrency_con.TxnTypes.{Logic, run}
use database_concurrency_con.Atomic.Queue.{push, pop}
use database_concurrency_con.Processor.Objects.{
  Shared, txn_at, set_txn, set_status, new_txn_request,
}

infixl 5 ◌>>=◌
abbrev ◌>>=◌ {ℓ κ} : {A : Type ℓ} {B : Type κ} → Option A → (A → Option B) → Option B
none >>= f = none
some a >>= f = f a

-- The body of a reading loop; `junk` is what the local `result` holds before it is set.
unfoldable mvcc_fetch : ℕ → ℕ → ℕ → MvccStorage → List (ℕ × ℕ) → Option (MvccStorage × List (ℕ × ℕ))
mvcc_fetch junk id k s reads = do
  s₁ ← MvccStorage.lock k s
  let ((found, result), s₂) = MvccStorage.read k junk id s₁
  s₃ ← MvccStorage.unlock k s₂
  some (s₃, (if found then assign k result reads else reads))

-- The two reading loops, over the read set and then the write set.
unfoldable mvcc_fetch_all :
    (ℕ → MvccStorage → MvccStorage)
    → (ℕ → ℕ)
    → ℕ
    → ℕ
    → List ℕ
    → MvccStorage
    → List (ℕ × ℕ)
    → Option (MvccStorage × List (ℕ × ℕ))
mvcc_fetch_all others junk i id [] s reads = some (s, reads)
mvcc_fetch_all others junk i id (k ∷ ks) s reads = do
  (s', reads') ← mvcc_fetch (junk i) id k (others i s) reads
  mvcc_fetch_all others junk (i + 1) id ks s' reads'

-- The loops that lock and unlock the keys of the write set.
pub lock_all : (ℕ → MvccStorage → MvccStorage) → ℕ → List ℕ → MvccStorage → Option MvccStorage
lock_all others i [] s = some s
lock_all others i (k ∷ ks) s = do
  s' ← MvccStorage.lock k (others i s)
  lock_all others (i + 1) ks s'

pub unlock_all : List ℕ → MvccStorage → Option MvccStorage
unlock_all [] s = some s
unlock_all (k ∷ ks) s = do s' ← MvccStorage.unlock k s; unlock_all ks s'

-- The loop of the checks: the flag `verified`.
pub check_all : ℕ → List ℕ → MvccStorage → Bool
check_all id [] s = true
check_all id (k ∷ ks) s =
    let rest = check_all id ks s in if MvccStorage.check_write k id s then rest else false

-- `ApplyWrites`
pub mvcc_apply : ℕ → List (ℕ × ℕ) → MvccStorage → MvccStorage
mvcc_apply id [] s = s
mvcc_apply id ((k, v) ∷ writes) s = mvcc_apply id writes (MvccStorage.write k v id s)

-- `txn->status_ = COMMITTED; txn_results_.Push(txn);`
pub mvcc_commit : ℕ → Shared → Shared
mvcc_commit t s = record (set_status t committed s) { txn_results = push t s.txn_results }

-- Steps 10 and 11: the transaction is emptied and requested again.
pub mvcc_restart : ℕ → Shared → Shared
mvcc_restart t s =
    new_txn_request t
      (set_txn t (record (txn_at s t) { reads = []; writes = []; status = incomplete }) s)

-- Steps 5 to 11, with the keys of the write set locked. The checks, the writes and the unlocking
-- are under these locks.
pub mvcc_decide : Bool → ℕ → Shared → MvccStorage → Option (Shared × MvccStorage)
mvcc_decide verified t s st =
    let txn = txn_at s t in
    if verified
    then (do
      st' ← unlock_all txn.writeset (mvcc_apply txn.unique_id txn.writes st)
      some (mvcc_commit t s, st'))
    else (do st' ← unlock_all txn.writeset st; some (mvcc_restart t s, st'))

-- Steps 3 to 11, for a transaction that has run. `i` counts the calls.
pub mvcc_validate :
    (ℕ → MvccStorage → MvccStorage) → ℕ → ℕ → Shared → MvccStorage → Option (Shared × MvccStorage)
mvcc_validate others i t s st = do
  let txn = txn_at s t
  st' ← lock_all others i txn.writeset st
  mvcc_decide (check_all txn.unique_id txn.writeset st') t s st'

-- `MVCCExecuteTxn`, from the run of the transaction on; `died` ends the process.
unfoldable mvcc_run :
    (ℕ → MvccStorage → MvccStorage)
    → ℕ
    → ℕ
    → Shared
    → MvccStorage
    → Outcome Txn
    → Outcome (Option (Shared × MvccStorage))
mvcc_run others i t s st died = died
mvcc_run others i t s st (done ran) = done (
    mvcc_validate others i t (record (set_txn t ran s) { completed_txns = push t s.completed_txns })
      st)

-- `MVCCExecuteTxn`
unfoldable mvcc_execute_txn :
    (ℕ → MvccStorage → MvccStorage)
    → (ℕ → ℕ)
    → ℕ
    → Shared
    → MvccStorage
    → Outcome (Option (Shared × MvccStorage))
mvcc_execute_txn others junk t s st =
    let txn = txn_at s t in
    let keys = txn.readset ++ txn.writeset in
    elim (mvcc_fetch_all others junk 0 txn.unique_id keys st txn.reads) [
      | none ↦ done none
      | some (st', reads) ↦
          mvcc_run others (length keys) t s st'
            (run (s.objects t).logic (record txn { reads = reads }))
    ]

-- A round of the loop of `RunMVCCScheduler`: the request that is handed to the thread pool.
unfoldable mvcc_round : Shared → Option ℕ × Shared
mvcc_round s = let (task, q) = pop s.txn_requests in (task, record s { txn_requests = q })
