-- ===== src/Processor/Mvcc/System.antt =====
-- The processor in the mode MVCC with its clients and its threads: several threads are in
-- `MVCCExecuteTxn` at a time.
use database_concurrency_con.Prelude.{
  ℕ, ◌<◌, ◌≡◌, Bool, true, false, List, [], ◌∷◌, ◌++◌, some, assign, update, All, done, died,
  if◌then◌else◌,
}
use database_concurrency_con.Txn.{Txn}
use database_concurrency_con.TxnTypes.{Object, run}
use database_concurrency_con.MvccStorage.{MvccStorage, record_count}
use database_concurrency_con.MvccStorage
use database_concurrency_con.Atomic.Queue.{push}
use database_concurrency_con.Processor.Objects.{Shared, txn_at, set_txn, new_txn_request}
use database_concurrency_con.Processor.Workers.{keys_of}
use database_concurrency_con.Processor.Mvcc.{check_all, mvcc_apply, mvcc_commit, mvcc_restart}

-- Where a transaction is: with the client, in `txn_requests_`, in a queue of the thread pool, or at a
-- line of `MVCCExecuteTxn`: before the lock of the first of the keys that are left to read, with the
-- lock of a key that it has yet to read or has read, before the lock of the first of the keys to
-- write that are left (with the locks of others), or before the release of those that are left. A
-- transaction on which the process has ended is `dead`.
pub data Stage : Type 0 where
  outside requested queued dead : Stage
  fetching : List ℕ → Stage
  reading leaving : ℕ → List ℕ → Stage
  locking : (held todo : List ℕ) → Stage
  releasing : (verified : Bool) → List ℕ → Stage

pub record System : Type 0 where
  pub shared : Shared
  pub open shared use *
  pub storage : MvccStorage
  pub stage : ℕ → Stage

abbrev pub start_state : (ℕ → Object) → MvccStorage → System
start_state objects st = record {
  shared = record {
    objects = objects;
    next_unique_id = 1;
    txn_requests = [];
    completed_txns = [];
    txn_results = [];
    ticks = 0;
  };
  storage = st;
  stage = λ _. outside;
}

abbrev pub move : ℕ → Stage → Shared → MvccStorage → System → System
move t p shared st s = record s { shared = shared; storage = st; stage = update s.stage t p }

-- `txn->reads_[*itr] = result`, if the key was found
abbrev pub noted : ℕ → ℕ → Bool × ℕ → Shared → Shared
noted t k (found, result) p =
    let reads = (txn_at p t).reads in
    set_txn t (record (txn_at p t) { reads = if found then assign k result reads else reads }) p

-- The set is in increasing order.
abbrev pub IsSorted : List ℕ → Type 0
IsSorted [] = Unit
IsSorted (k ∷ ks) = All (λ j. k < j) ks × IsSorted ks

-- A step of a thread that executes `t`, one call of the storage at a time. The checks and the writes,
-- which are under the locks of all the keys that they touch, are one step. `junk` is what the local
-- `result` holds before it is set.
pub data Acts (t : ℕ) (s : System) : System → Type 0 where
  begins :
      s.stage t ≡ queued
      → Acts t s (move t (fetching (keys_of (txn_at s.shared t))) s.shared s.storage s)
  locks_read :
      (k : ℕ) (ks : List ℕ) (st : MvccStorage)
      → s.stage t ≡ fetching (k ∷ ks)
      → MvccStorage.lock k s.storage ≡ some st
      → Acts t s (move t (reading k ks) s.shared st s)
  reads :
      (k : ℕ) (ks : List ℕ) (junk : ℕ)
      → s.stage t ≡ reading k ks
      → Acts t s (
          let r = MvccStorage.read k junk (txn_at s.shared t).unique_id s.storage in
          move t (leaving k ks) (noted t k r.0 s.shared) r.1 s)
  unlocks_read :
      (k : ℕ) (ks : List ℕ) (st : MvccStorage)
      → s.stage t ≡ leaving k ks
      → MvccStorage.unlock k s.storage ≡ some st
      → Acts t s (move t (fetching ks) s.shared st s)
  runs :
      (ran : Txn)
      → s.stage t ≡ fetching []
      → run (s.objects t).logic (txn_at s.shared t) ≡ done ran
      → Acts t s (
          move t
            (locking [] ran.writeset)
            (record (set_txn t ran s.shared) { completed_txns = push t s.completed_txns })
            s.storage
            s)
  dies :
      s.stage t ≡ fetching []
      → run (s.objects t).logic (txn_at s.shared t) ≡ died
      → Acts t s (move t dead s.shared s.storage s)
  locks_write :
      (held : List ℕ) (k : ℕ) (ks : List ℕ) (st : MvccStorage)
      → s.stage t ≡ locking held (k ∷ ks)
      → MvccStorage.lock k s.storage ≡ some st
      → Acts t s (move t (locking (held ++ k ∷ []) ks) s.shared st s)
  checks :
      (held : List ℕ)
      → s.stage t ≡ locking held []
      → Acts t s (
          let txn = txn_at s.shared t in
          let verified = check_all txn.unique_id txn.writeset s.storage in
          move t
            (releasing verified txn.writeset)
            s.shared
            (if verified then mvcc_apply txn.unique_id txn.writes s.storage else s.storage)
            s)
  unlocks_write :
      (verified : Bool) (k : ℕ) (ks : List ℕ) (st : MvccStorage)
      → s.stage t ≡ releasing verified (k ∷ ks)
      → MvccStorage.unlock k s.storage ≡ some st
      → Acts t s (move t (releasing verified ks) s.shared st s)
  commits :
      s.stage t ≡ releasing true [] → Acts t s (move t outside (mvcc_commit t s.shared) s.storage s)
  restarts :
      s.stage t ≡ releasing false []
      → Acts t s (move t requested (mvcc_restart t s.shared) s.storage s)

-- The sets of a transaction are in order, and the storage has their keys.
abbrev pub IsGood : Txn → Type 0
IsGood txn = IsSorted txn.writeset × All (λ k. k < record_count) (keys_of txn)

-- A step of a client, of the scheduler or of a thread of the pool.
pub data Step (s : System) : System → Type 0 where
  submits :
      (t : ℕ)
      → s.stage t ≡ outside
      → IsGood (txn_at s.shared t)
      → Step s (move t requested (new_txn_request t s.shared) s.storage s)
  hands :
      (t : ℕ) (q : List ℕ)
      → s.txn_requests ≡ t ∷ q
      → Step s (move t queued (record s.shared { txn_requests = q }) s.storage s)
  acts : (t : ℕ) {s' : System} → Acts t s s' → Step s s'

pub data Reach (s₀ : System) : System → Type 0 where
  here : Reach s₀ s₀
  next : {s s' : System} → Reach s₀ s → Step s s' → Reach s₀ s'
