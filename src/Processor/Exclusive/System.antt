-- ===== src/Processor/Exclusive/System.antt =====
-- The processor in the mode LOCKING_EXCLUSIVE_ONLY with its clients and its threads:
-- `RunLockingScheduler` and the threads of the pool take their steps in any order.
use database_concurrency_con.Prelude.{
  ℕ, ◌≡◌, Bool, contains, List, [], ◌∷◌, some, update, done, Distinct, if◌then◌else◌,
}
use database_concurrency_con.Txn.{
  Txn, TxnStatus, incomplete, completed_c, completed_a, committed, aborted,
}
use database_concurrency_con.TxnTypes.{Object, run}
use database_concurrency_con.Storage.{Storage}
use database_concurrency_con.LockManager.Requests.{Tables, no_locks}
use database_concurrency_con.LockManager.Implementations.{manager_a}
use database_concurrency_con.Processor.Objects.{Shared, txn_at, new_txn_request}
use database_concurrency_con.Processor.Locking.{start_txn, finish_txn, is_several}
use database_concurrency_con.Processor.Workers.{
  Place, outside, requested, locking, queued, executed, reading, keys_of, begin_txn, read_key,
  complete_txn,
}
use database_concurrency_con.Processor.Serializability.{Entry}

-- The processor, with the place of each transaction. For the proofs it has what each transaction was
-- when a thread last began it, and the transactions that have committed, the last one first.
pub record System : Type 0 where
  pub shared : Shared
  pub open shared use *
  pub storage : Storage
  pub tables : Tables
  pub place : ℕ → Place
  pub began : ℕ → Txn
  pub log : List Entry

-- A new processor has no transaction and no lock.
abbrev pub start_state : (ℕ → Object) → ℕ → Storage → System
start_state objects ticks st = record {
  shared = record {
    objects = objects;
    next_unique_id = 1;
    txn_requests = [];
    completed_txns = [];
    txn_results = [];
    ticks = ticks;
  };
  storage = st;
  tables = no_locks [];
  place = λ _. outside;
  began = λ t. (objects t).txn;
  log = [];
}

abbrev pub move : ℕ → Place → Shared → System → System
move t p shared s = record s { shared = shared; place = update s.place t p }

-- Where a transaction is when the scheduler has asked for its locks.
abbrev pub place_after : ℕ → Bool → Tables → Place
place_after t several tables =
    if contains t tables.ready_txns then locking else if several then requested else locking

-- What `t` is in the history of what has committed.
abbrev pub entry_of : ℕ → System → Entry
entry_of t s = record {
  txn = t;
  logic = (s.objects t).logic;
  before = s.began t;
  start = (txn_at s.shared t).occ_start_time;
  ran = txn_at s.shared t;
}

abbrev pub log_after : TxnStatus → Entry → List Entry → List Entry
log_after completed_c e log = e ∷ log
log_after completed_a e log = log
log_after incomplete e log = log
log_after committed e log = log
log_after aborted e log = log

abbrev pub started : ℕ → Shared × Tables → System → System
started t r s = record s {
  shared = r.0;
  tables = r.1;
  place = update s.place t (place_after t (is_several manager_a (txn_at s.shared t)) r.1);
}

abbrev pub finished : ℕ → (Shared × Tables) × Storage → System → System
finished t r s = record s {
  shared = r.0.0;
  tables = r.0.1;
  storage = r.1;
  place = update s.place t outside;
  log = log_after (txn_at s.shared t).status (entry_of t s) s.log;
}

-- A step of a client, of the scheduler or of a thread of the pool. Clients hand in transactions that
-- have written nothing, with sets that have no key in common. A task that is in the pool
-- begins at any time. Each access of a storage by a thread is one step.
pub data Step (times : ℕ → ℕ) (s : System) : System → Type 0 where
  submits :
      (t : ℕ)
      → s.place t ≡ outside
      → (txn_at s.shared t).writes ≡ []
      → Distinct (keys_of (txn_at s.shared t))
      → Step times s (move t requested (new_txn_request t s.shared) s)
  starts :
      (t : ℕ) (q : List ℕ) (r : Shared × Tables)
      → s.txn_requests ≡ t ∷ q
      → start_txn manager_a t (record s.shared { txn_requests = q }) s.tables ≡ some r
      → Step times s (started t r s)
  hands :
      (t : ℕ) (q : List ℕ)
      → s.tables.ready_txns ≡ t ∷ q
      → Step times s
          (record (move t queued s.shared s) { tables = record s.tables { ready_txns = q } })
  begins :
      (t : ℕ)
      → s.place t ≡ queued
      → Step times s
          (record (move t (reading (keys_of (txn_at s.shared t))) (begin_txn times t s.shared) s) {
            began = update s.began t (txn_at s.shared t);
          })
  fetches :
      (t k : ℕ) (ks : List ℕ)
      → s.place t ≡ reading (k ∷ ks)
      → Step times s (move t (reading ks) (read_key t k s.storage s.shared) s)
  completes :
      (t : ℕ) (ran : Txn)
      → s.place t ≡ reading []
      → run (s.objects t).logic (txn_at s.shared t) ≡ done ran
      → Step times s (move t executed (complete_txn t ran s.shared) s)
  finishes :
      (t : ℕ) (q : List ℕ) (r : (Shared × Tables) × Storage)
      → s.completed_txns ≡ t ∷ q
      → finish_txn manager_a times t (record s.shared { completed_txns = q }) s.storage s.tables
        ≡ done (some r)
      → Step times s (finished t r s)

-- What the steps can make of a new processor.
pub data Reach (times : ℕ → ℕ) (s₀ : System) : System → Type 0 where
  here : Reach times s₀ s₀
  next : {s s' : System} → Reach times s₀ s → Step times s s' → Reach times s₀ s'
