-- ===== src/Processor/Occ/System.antt =====
-- The processor in the mode OCC with its clients and its threads: `RunOCCScheduler` and the threads
-- of the pool take their steps in any order.
use database_concurrency_con.Prelude.{ℕ, ◌≡◌, Bool, true, false, List, [], ◌∷◌, update, done}
use database_concurrency_con.Txn.{
  Txn, TxnStatus, incomplete, completed_c, completed_a, committed, aborted,
}
use database_concurrency_con.TxnTypes.{Object, run}
use database_concurrency_con.Storage.{Storage}
use database_concurrency_con.Processor.Objects.{Shared, txn_at, new_txn_request}
use database_concurrency_con.Processor.Workers.{
  Place, outside, requested, queued, executed, reading, keys_of, begin_txn, read_key, complete_txn,
}
use database_concurrency_con.Processor.Serializability.{Entry}
use database_concurrency_con.Processor.Occ.{is_valid, occ_finish}

-- The processor, with the place of each transaction. For the proofs it has what each transaction was
-- when a thread last began it, the transactions that have committed, the last one first, and for each
-- of these what the client handed in and whether it was restarted before it committed.
pub record System : Type 0 where
  pub shared : Shared
  pub open shared use *
  pub storage : Storage
  pub place : ℕ → Place
  pub began : ℕ → Txn
  pub log : List Entry
  pub handed : ℕ → Txn
  pub restarted : ℕ → Bool
  pub origins : List (Txn × Bool)

-- A new processor has no transaction, and has read the clock as often as its storage says.
abbrev pub start_state : (ℕ → Object) → ℕ → Storage → System
start_state objects ticks st = record {
  shared = record {
    objects = objects;
    next_unique_id = 1;
    txn_requests = [];
    completed_txns = [];
    txn_results = [];
    ticks = ticks;
  };
  storage = st;
  place = λ _. outside;
  began = λ t. (objects t).txn;
  log = [];
  handed = λ t. (objects t).txn;
  restarted = λ _. false;
  origins = [];
}

abbrev pub move : ℕ → Place → Shared → System → System
move t p shared s = record s { shared = shared; place = update s.place t p }

-- Where a transaction goes when the scheduler is done with it.
abbrev pub place_after : TxnStatus → Bool → Place
place_after completed_c false = requested
place_after completed_c true = outside
place_after completed_a valid = outside
place_after incomplete valid = outside
place_after committed valid = outside
place_after aborted valid = outside

-- What `t` is in the history of what has committed.
abbrev pub entry_of : ℕ → System → Entry
entry_of t s = record {
  txn = t;
  logic = (s.objects t).logic;
  before = s.began t;
  start = (txn_at s.shared t).occ_start_time;
  ran = txn_at s.shared t;
}

abbrev pub log_after : {A : Type 0} → TxnStatus → Bool → A → List A → List A
log_after completed_c true e log = e ∷ log
log_after completed_c false e log = log
log_after completed_a valid e log = log
log_after incomplete valid e log = log
log_after committed valid e log = log
log_after aborted valid e log = log

-- The system after the scheduler has finished with `t`, which goes to the place `p`.
abbrev pub settled : ℕ → Place → List Entry → Shared × Storage → System → System
settled t p log r s = record s {
  shared = r.0;
  storage = r.1;
  place = update s.place t p;
  log = log;
}

abbrev pub concluded : ℕ → Shared × Storage → System → System
concluded t r s =
    let txn = txn_at s.shared t in
    let valid = is_valid txn s.storage in
    settled t (place_after txn.status valid) (log_after txn.status valid (entry_of t s) s.log) r s

-- What `finished` and `submitted` add is for the proofs only. If `t` is asked for again, it is
-- restarted.
abbrev pub finished : ℕ → Shared × Storage → System → System
finished t r s =
    let txn = txn_at s.shared t in
    let valid = is_valid txn s.storage in
    record (concluded t r s) {
      restarted = update s.restarted t true;
      origins = log_after txn.status valid (s.handed t, s.restarted t) s.origins;
    }

abbrev pub submitted : ℕ → System → System
submitted t s = record (move t requested (new_txn_request t s.shared) s) {
  handed = update s.handed t (txn_at s.shared t);
  restarted = update s.restarted t false;
}

-- A step of a client, of the scheduler or of a thread of the pool. Clients hand in transactions that
-- have not run and have no pending writes. A task that is in the pool begins at any time. Each access of a storage, of a queue
-- and of the clock is one step.
pub data Step (times : ℕ → ℕ) (s : System) : System → Type 0 where
  submits :
      (t : ℕ)
      → s.place t ≡ outside
      → (txn_at s.shared t).status ≡ incomplete
      → (txn_at s.shared t).writes ≡ []
      → Step times s (submitted t s)
  hands :
      (t : ℕ) (q : List ℕ)
      → s.txn_requests ≡ t ∷ q
      → Step times s (move t queued (record s.shared { txn_requests = q }) s)
  begins :
      (t : ℕ)
      → s.place t ≡ queued
      → Step times s
          (record (move t (reading (keys_of (txn_at s.shared t))) (begin_txn times t s.shared) s) {
            began = update s.began t (txn_at s.shared t);
          })
  fetches :
      (t k : ℕ) (ks : List ℕ)
      → s.place t ≡ reading (k ∷ ks)
      → Step times s (move t (reading ks) (read_key t k s.storage s.shared) s)
  completes :
      (t : ℕ) (ran : Txn)
      → s.place t ≡ reading []
      → run (s.objects t).logic (txn_at s.shared t) ≡ done ran
      → Step times s (move t executed (complete_txn t ran s.shared) s)
  finishes :
      (t : ℕ) (q : List ℕ) (r : Shared × Storage)
      → s.completed_txns ≡ t ∷ q
      → occ_finish times t (record s.shared { completed_txns = q }) s.storage ≡ done r
      → Step times s (finished t r s)

-- What the steps can make of a new processor.
pub data Reach (times : ℕ → ℕ) (s₀ : System) : System → Type 0 where
  here : Reach times s₀ s₀
  next : {s s' : System} → Reach times s₀ s → Step times s s' → Reach times s₀ s'
