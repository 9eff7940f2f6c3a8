-- ===== src/Processor/Mvcc/Progress.antt =====
-- The multiversion scheduler: no two threads hold the lock of a key, and there is no deadlock, since
-- a thread locks the keys of its write set in increasing order, and holds no lock when it waits for
-- the one of a key that it reads.
use database_concurrency_con.Prelude.{
  ℕ, zero, suc, ◌+◌, ◌<◌, ◌≡◌, ◌∙◌, sym, Bool, true, false, ◌&&◌, List, [], ◌∷◌, ◌++◌, none, some,
  update, arith, All, contains, Bool-cases, inl, inr, ◌==◌, ==→≡, if◌then◌else◌, ltb, leb,
}
use database_concurrency_con.Txn.{Txn}
use database_concurrency_con.TxnTypes.{Object}
use database_concurrency_con.MvccStorage.{
  MvccStorage, empty, record_count, write, init_from, init_storage,
}
use database_concurrency_con.MvccStorage.Visibility.{versions_of, init_storage-versions}
use database_concurrency_con.Processor.Mvcc.System.{
  Stage, outside, requested, queued, dead, fetching, reading, leaving, locking, releasing, System,
  start_state, IsSorted, Reach, here, next,
}
use database_concurrency_con.Processor.Mvcc.Stages.{holds, IsWell}
use database_concurrency_con.Processor.Mvcc.Invariant.{Inv}
use database_concurrency_con.Processor.Mvcc.Preservation.{Step-keeps}

-- The mutexes and the versions as `InitStorage` leaves them.
abbrev pub IsFresh : MvccStorage → Type 0
IsFresh st =
    ((k : ℕ) → st.mutexes k ≡ (if ltb k record_count then some false else none))
    × ((k : ℕ)
        → versions_of k st ≡ (
            if ltb k record_count
            then record { value = 0; max_read_id = 0; version_id = 0 } ∷ []
            else []))

init_from-mutexes :
    (n i k : ℕ) (s : MvccStorage)
    → (init_from n i s).mutexes k ≡ (if leb i k && ltb k (i + n) then some false else s.mutexes k)
unfolding init_from write
init_from-mutexes zero i k s = ground arith
init_from-mutexes (suc n) i k s = ground (
  arith,
  init_from-mutexes n (i + 1) k
      (record (write i 0 0 s) { mutexes = update s.mutexes i (some false) }),
)

-- `InitStorage` leaves a new storage in such a state.
pub init_storage-IsFresh : IsFresh (init_storage empty)
unfolding init_storage
init_storage-IsFresh =
    (λ k. ground (arith, init_from-mutexes record_count 0 k empty), λ k. init_storage-versions k)

-- A transaction that a thread executes.
abbrev pub is_running : Stage → Bool
is_running outside = false
is_running requested = false
is_running queued = false
is_running dead = false
is_running (fetching ks) = true
is_running (reading k ks) = true
is_running (leaving k ks) = true
is_running (locking held todo) = true
is_running (releasing verified ks) = true

abbrev head_is : ℕ → List ℕ → Bool
head_is j [] = false
head_is j (k ∷ ks) = j == k

-- Whether the next step is the lock of `j`.
abbrev pub wants : Stage → ℕ → Bool
wants outside j = false
wants requested j = false
wants queued j = false
wants dead j = false
wants (fetching ks) j = head_is j ks
wants (reading k ks) j = false
wants (leaving k ks) j = false
wants (locking held todo) j = head_is j todo
wants (releasing verified ks) j = false

pub reach-Inv :
    {objects : ℕ → Object} {st : MvccStorage} {s : System}
    → IsFresh st
    → Reach (start_state objects st) s
    → Inv s
reach-Inv fresh here = record {
  owned = record {
    locked = λ t k h. ground (arith, h);
    owner = λ k e. ground (arith, e, fresh.0 k);
    unique = λ t j k h h'. ground (arith, h);
    exists = λ k lt. (false, fresh.0 k ∙ ground (arith, lt));
  };
  well = λ t. tt;
  asked = (tt, λ j e. ground (arith, e));
}
reach-Inv fresh (next r step) = Step-keeps step (reach-Inv fresh r)

-- In the mode MVCC, from a storage as `InitStorage` leaves it, whatever the clients, the scheduler and
-- the threads of the pool do and in whatever order, as long as the sets of the transactions are in
-- order and have keys of the storage: no two threads hold the lock of a key together.
pub mvcc-mutual_exclusion :
    {objects : ℕ → Object} {st : MvccStorage} {s : System}
    → IsFresh st
    → Reach (start_state objects st) s
    → (t j k : ℕ) → holds (s.stage t) k ≡ true
    → holds (s.stage j) k ≡ true
    → t ≡ j
mvcc-mutual_exclusion fresh r t j k h h' = (reach-Inv fresh r).owned.unique t j k h h'

All-at : (P : ℕ → Type 0) (k : ℕ) (ks js : List ℕ) → All P (ks ++ k ∷ js) → P k
All-at P k [] js h = h.0
All-at P k (i ∷ ks) js h = All-at P k ks js h.1

pub All-right : (P : ℕ → Type 0) (ks js : List ℕ) → All P (ks ++ js) → All P js
All-right P [] js h = h
All-right P (k ∷ ks) js h = All-right P ks js h.1

sorted_before : (j k : ℕ) (ks js : List ℕ) → IsSorted (ks ++ k ∷ js) → contains j ks ≡ true → j < k
sorted_before j k [] js h m = ground (arith, m)
sorted_before j k (i ∷ ks) js h m = elim (Bool-cases (j == i)) [
  | inl e ↦ rw (==→≡ j i e) (All-at (λ b. i < b) k ks js h.0)
  | inr e ↦ sorted_before j k ks js h.1 (ground (arith, m, e))
]

-- A thread that wants a key wants one of the storage's; and it is above those that it holds.
pub wants_key : (p : Stage) (txn : Txn) (k : ℕ) → IsWell p txn → wants p k ≡ true → k < record_count
wants_key outside txn k h w = ground (arith, w)
wants_key requested txn k h w = ground (arith, w)
wants_key queued txn k h w = ground (arith, w)
wants_key dead txn k h w = ground (arith, w)
wants_key (fetching []) txn k h w = ground (arith, w)
wants_key (fetching (j ∷ ks)) txn k h w = rw (==→≡ k j w) h.1.0
wants_key (reading j ks) txn k h w = ground (arith, w)
wants_key (leaving j ks) txn k h w = ground (arith, w)
wants_key (locking held []) txn k h w = ground (arith, w)
wants_key (locking held (j ∷ ks)) txn k (good, all) w = rw (==→≡ k j w) (
    All-at (λ i. i < record_count) j held ks
      (rw (sym all) at (All-right (λ i. i < record_count) txn.readset txn.writeset good.1)))
wants_key (releasing verified ks) txn k h w = ground (arith, w)

pub wants_above :
    (p : Stage) (txn : Txn) (j k : ℕ) → IsWell p txn → holds p j ≡ true → wants p k ≡ true → j < k
wants_above outside txn j k h m w = ground (arith, w)
wants_above requested txn j k h m w = ground (arith, w)
wants_above queued txn j k h m w = ground (arith, w)
wants_above dead txn j k h m w = ground (arith, w)
wants_above (fetching ks) txn j k h m w = ground (arith, m)
wants_above (reading i ks) txn j k h m w = ground (arith, w)
wants_above (leaving i ks) txn j k h m w = ground (arith, w)
wants_above (locking held []) txn j k h m w = ground (arith, w)
wants_above (locking held (i ∷ ks)) txn j k (good, all) m w =
    rw (==→≡ k i w) (sorted_before j i held ks (rw (sym all) at good.0) m)
wants_above (releasing verified ks) txn j k h m w = ground (arith, w)
