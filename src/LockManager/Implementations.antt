-- ===== src/LockManager/Implementations.antt =====
-- Both lock managers change the deques as the laws of the interface say.
use database_concurrency_con.Prelude.{
  ℕ, ◌≡◌, ◌≢◌, refl, ◌∙◌, Bool, true, false, List, [], ◌∷◌, ◌++◌, some, arith, All, contains,
  Distinct, Bool-cases, Option-cases, inl, inr, if◌then◌else◌, ◌==◌,
}
use database_concurrency_con.LockManager.Requests.{
  LockMode, unlocked, shared, exclusive, LockRequest, request, Tables, queue, txns_of,
}
use database_concurrency_con.LockManager.Granted.{IsRequest, erase_first}
use database_concurrency_con.LockManager.Interface.{LockManager, LockLaws}
use database_concurrency_con.LockManager.ManagerA
use database_concurrency_con.LockManager.ManagerA.{serve, serve_next}
use database_concurrency_con.LockManager.ManagerA.Locks.{
  set_queue, write_lock_lem, release_lem, is_holder,
}
use database_concurrency_con.LockManager.ManagerB
use database_concurrency_con.LockManager.ManagerB.{ManagerB, add_lock}
use database_concurrency_con.LockManager.ManagerB.Grants.{add_lock_lem}
use database_concurrency_con.LockManager.ManagerB.Releases.{release-advances}
use database_concurrency_con.LockManager.ManagerB.Erasures.{
  erase_first-IsRequest, erase_first-Distinct,
}

-- LockManagerA
abbrev pub manager_a : LockManager Tables
manager_a = record {
  read_lock = ManagerA.read_lock;
  write_lock = ManagerA.write_lock;
  release = ManagerA.release;
  ready_txns = λ s. s.ready_txns;
  set_ready = λ ready s. record s { ready_txns = ready };
  queue = queue;
}

serve_next-queue :
    (q : List LockRequest) (happened : Bool) (s : Tables) (j : ℕ)
    → queue (serve_next q happened s) j ≡ queue s j
unfolding serve_next serve
serve_next-queue [] happened s j = refl
serve_next-queue (r ∷ q) true s j = ground arith
serve_next-queue (r ∷ q) false s j = refl

write_a :
    (t k : ℕ) (s : Tables)
    → (j : ℕ)
    → queue (ManagerA.write_lock t k s).1 j
      ≡ (if k == j then queue s k ++ request exclusive t ∷ [] else queue s j)
write_a t k s j = rw ((write_lock_lem t k s).0) (ground arith)

release_a :
    (t k : ℕ) (s : Tables)
    → contains t (txns_of (queue s k)) ≡ true
    → (s' : Tables) × (ManagerA.release t k s ≡ some s')
      × (Unit {0})
      × ((j : ℕ) → queue s' j ≡ (if k == j then erase_first t (queue s k) else queue s j))
release_a t k s h = elim (Option-cases (s.lock_table k)) [
  | inl e ↦ ground (arith, e, h)
  | inr (q, e) ↦ (
    _,
    (release_lem t k s).0 q e,
    tt,
    λ j.
        serve_next-queue (erase_first t q) (is_holder t q) (set_queue k (erase_first t q) s) j
        ∙ ground (arith, e),
  )
]

-- LockManagerA does so in every state, with exclusive requests for reads too.
manager_a-LockLaws : LockLaws manager_a (λ _. Unit {0})
manager_a-LockLaws = record {
  read_mode = exclusive;
  read_lock_lem = λ t k s v h. (tt, λ j. rw ((write_lock_lem t k s).1) (write_a t k s j));
  write_lock_lem = λ t k s v h. (tt, write_a t k s);
  release_lem = λ t k s v h. release_a t k s h;
}

-- LockManagerB
abbrev pub manager_b : (List LockRequest → ℕ → LockMode) → LockManager ManagerB
manager_b stale = record {
  read_lock = ManagerB.read_lock;
  write_lock = ManagerB.write_lock;
  release = λ t k s. some (ManagerB.release stale t k s);
  ready_txns = λ s. s.ready_txns;
  set_ready = λ ready s. record s { tables = record s.tables { ready_txns = ready } };
  queue = λ s. queue s.tables;
}

-- Every request in the lock table is for a shared or an exclusive lock, and no transaction has two
-- for one key.
abbrev pub IsProper : ManagerB → Type 0
IsProper s = (k : ℕ) → All IsRequest (queue s.tables k) × Distinct (txns_of (queue s.tables k))

append-absent :
    (mode : LockMode) (a t : ℕ) (q : List LockRequest)
    → (a == t) ≡ false
    → contains a (txns_of q) ≡ false
    → contains a (txns_of (q ++ request mode t ∷ [])) ≡ false
append-absent mode a t [] n h = ground (arith, n)
append-absent mode a t (r ∷ q) n h = ground (arith, append-absent mode a t q n)

proper-append :
    (mode : LockMode) (t : ℕ) (q : List LockRequest)
    → mode ≢ unlocked
    → contains t (txns_of q) ≡ false
    → All IsRequest q
    → Distinct (txns_of q)
    → All IsRequest (q ++ request mode t ∷ []) × Distinct (txns_of (q ++ request mode t ∷ []))
proper-append mode t [] m h a d = ((m, tt), (refl, tt))
proper-append mode t (r ∷ q) m h a d =
    let (tail, distinct) = proper-append mode t q m (ground (arith, h)) a.1 d.1 in
    ((a.0, tail), (append-absent mode r.txn t q (ground (arith, h)) d.0, distinct))

add-queue :
    (mode : LockMode) (t k : ℕ) (s : ManagerB)
    → mode ≢ unlocked
    → All IsRequest (queue s.tables k)
    → (j : ℕ)
    → queue (add_lock mode t k s).1.tables j
      ≡ (if k == j then queue s.tables k ++ request mode t ∷ [] else queue s.tables j)
add-queue mode t k s m a j = rw (add_lock_lem mode t k s m a) (ground arith)

add_b :
    (mode : LockMode) (t k : ℕ) (s : ManagerB)
    → mode ≢ unlocked
    → IsProper s
    → contains t (txns_of (queue s.tables k)) ≡ false
    → IsProper (add_lock mode t k s).1
      × ((j : ℕ)
          → queue (add_lock mode t k s).1.tables j
            ≡ (if k == j then queue s.tables k ++ request mode t ∷ [] else queue s.tables j))
add_b mode t k s m v h =
    let deques = add-queue mode t k s m (v k).0 in
    (
      λ j. elim (Bool-cases (k == j)) [
        | inl e ↦ rw (deques j, e) (proper-append mode t (queue s.tables k) m h (v k).0 (v k).1)
        | inr e ↦ rw (deques j, e) (v j)
      ],
      deques,
    )

release_b :
    (stale : List LockRequest → ℕ → LockMode) (t k : ℕ) (s : ManagerB)
    → IsProper s
    → (s' : ManagerB) × (some (ManagerB.release stale t k s) ≡ some s')
      × IsProper s'
      × ((j : ℕ)
          → queue s'.tables j
            ≡ (if k == j then erase_first t (queue s.tables k) else queue s.tables j))
release_b stale t k s v =
    let deques = (release-advances stale t k s (v k).0 (v k).1).0 in
    (
      ManagerB.release stale t k s,
      refl,
      λ j. elim (Bool-cases (k == j)) [
        | inl e ↦
            rw (deques j, e)
              (
                erase_first-IsRequest t (queue s.tables k) (v k).0,
                erase_first-Distinct t (queue s.tables k) (v k).1,
              )
        | inr e ↦ rw (deques j, e) (v j)
      ],
      deques,
    )

shared≢unlocked : shared ≢ unlocked
shared≢unlocked e = ground (arith, e)

exclusive≢unlocked : exclusive ≢ unlocked
exclusive≢unlocked e = ground (arith, e)

-- LockManagerB does so in every proper state, whatever the erased iterator reads.
pub manager_b-LockLaws :
    (stale : List LockRequest → ℕ → LockMode) → LockLaws (manager_b stale) IsProper
unfolding ManagerB.read_lock ManagerB.write_lock
manager_b-LockLaws stale = record {
  read_mode = shared;
  read_lock_lem = λ t k s v h. add_b shared t k s shared≢unlocked v h;
  write_lock_lem = λ t k s v h. add_b exclusive t k s exclusive≢unlocked v h;
  release_lem = λ t k s v h. release_b stale t k s v;
}
