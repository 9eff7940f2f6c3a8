-- ===== src/Processor/Exclusive/Histories.antt =====
-- The exclusive scheduler: the transactions that commit are serializable, in the order in which they
-- commit, and no two that run have a key in common.
use database_concurrency_con.Prelude.{ℕ, ◌≡◌, refl, subst, true, contains, List, ◌∷◌, arith}
use database_concurrency_con.TxnTypes.{Object}
use database_concurrency_con.Storage.{Storage}
use database_concurrency_con.LockManager.Requests.{LockRequest, request, exclusive, queue}
use database_concurrency_con.Processor.Objects.{txn_at}
use database_concurrency_con.Processor.Workers.{keys_of}
use database_concurrency_con.Processor.Serializability.{Database, IsSerial}
use database_concurrency_con.Processor.Exclusive.Views.{has}
use database_concurrency_con.Processor.Exclusive.System.{
  System, start_state, started, finished, Step, submits, starts, hands, begins, fetches, completes,
  finishes, Reach, here, next,
}
use database_concurrency_con.Processor.Exclusive.Invariant.{Inv, submits-Inv, hands-Inv}
use database_concurrency_con.Processor.Exclusive.WorkerSteps.{
  begins-Inv, fetches-Inv, completes-Inv,
}
use database_concurrency_con.Processor.Exclusive.StartSteps.{start_txn-Inv}
use database_concurrency_con.Processor.Exclusive.FinishSteps.{finish_txn-Inv}

Step-keeps :
    {times : ℕ → ℕ} (keys : ℕ → List ℕ) (db : Database) {s s' : System}
    → Step times s s'
    → Inv keys db s
    → Inv keys db s'
Step-keeps keys db {s} (submits t e w d) inv = submits-Inv keys db t s e (d, w) inv
Step-keeps keys db {s} (starts t q r e ran) inv =
    let (r', ran', inv') = start_txn-Inv keys db t q s e inv in
    subst (λ r. Inv keys db (started t r s)) (ground (arith, ran, ran')) inv'
Step-keeps keys db {s} (hands t q e) inv = hands-Inv keys db t q s e inv
Step-keeps {times} keys db {s} (begins t e) inv = begins-Inv keys db times t s e inv
Step-keeps keys db {s} (fetches t k ks e) inv = fetches-Inv keys db t k ks s e inv
Step-keeps keys db {s} (completes t ran e ends) inv = completes-Inv keys db t ran s e ends inv
Step-keeps {times} keys db {s} (finishes t q r e ran) inv =
    let (r', ran', _, _, inv') = finish_txn-Inv keys db t q s e inv times in
    subst (λ r. Inv keys db (finished t r s)) (ground (arith, ran, ran')) inv'

abbrev pub keys_at : (ℕ → Object) → ℕ → List ℕ
keys_at objects t = keys_of (objects t).txn

module _ {times : ℕ → ℕ} {objects : ℕ → Object} {ticks : ℕ} {st : Storage} where
  pub reach-Inv :
      {s : System}
      → Reach times (start_state objects ticks st) s
      → Inv (keys_at objects) st.values s
  reach-Inv here = record {
    serial = refl;
    sets = λ t. refl;
    workers = λ t. tt;
    orderly = record {
      deques = λ k. tt;
      fronts = λ t k h. ground (arith, h);
      waiting = λ t k w. ground (arith, w);
      resting = λ t k one w. refl;
    };
    asked = (tt, λ j e. ground (arith, e));
    readies = (tt, λ j e. ground (arith, e));
    waiting = (tt, λ j e. ground (arith, e));
  }
  reach-Inv (next r step) = Step-keeps (keys_at objects) st.values step (reach-Inv r)

  -- In the mode LOCKING_EXCLUSIVE_ONLY, whatever the clients, the scheduler and the threads of the
  -- pool do and in whatever order, with transactions that have written nothing and have no key twice
  -- when they are handed in: the database is at any moment what the committed transactions give when
  -- they run one after the other, each alone, in the order of their commits.
  pub exclusive-IsSerial :
      {s : System}
      → Reach times (start_state objects ticks st) s
      → IsSerial st.values s.log s.storage.values
  exclusive-IsSerial r = (reach-Inv r).serial

  -- In every state that can be reached in the mode LOCKING_EXCLUSIVE_ONLY a transaction that has its
  -- locks, being in `ready_txns_`, in the pool or in `completed_txns_`, is first in the deques of all
  -- its keys, so that no two such transactions have a key in common.
  owner-is_first :
      {s : System}
      → Reach times (start_state objects ticks st) s
      → (t k : ℕ) → has (s.place t) (contains t s.tables.ready_txns) ≡ true
      → contains k (keys_of (txn_at s.shared t)) ≡ true
      → (q : List LockRequest) × (queue s.tables k ≡ request exclusive t ∷ q)
  owner-is_first r t k h m =
      let inv = reach-Inv r in inv.orderly.fronts t k (ground (arith, h, rw (inv.sets t) at m))

  -- In every state that can be reached in the mode LOCKING_EXCLUSIVE_ONLY there is no deadlock: the
  -- first request of any deque is of a transaction that has its locks, being in `ready_txns_`, in the
  -- pool or in `completed_txns_`, and that is first in the deques of all its other keys too.
  pub first-is_active :
      {s : System}
      → Reach times (start_state objects ticks st) s
      → (k j : ℕ) (r : LockRequest) (q : List LockRequest) → queue s.tables k ≡ r ∷ q
      → contains j (keys_of (txn_at s.shared r.txn)) ≡ true
      → (has (s.place r.txn) (contains r.txn s.tables.ready_txns) ≡ true)
        × ((q' : List LockRequest) × (queue s.tables j ≡ request exclusive r.txn ∷ q'))
  first-is_active {s} reach k j r q e m =
      let active : has (s.place r.txn) (contains r.txn s.tables.ready_txns) ≡ true =
        ground (arith, (rw e at ((reach-Inv reach).orderly.deques k)).1) in
      (active, owner-is_first reach r.txn j active m)
