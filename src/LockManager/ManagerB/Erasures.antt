-- ===== src/LockManager/ManagerB/Erasures.antt =====
-- LockManagerB: what the erasure of a request leaves of a deque.
use database_concurrency_con.Prelude.{
  ℕ, zero, suc, ◌+◌, ◌≡◌, refl, false, List, [], ◌∷◌, none, some, arith, contains, Distinct, All,
  if◌then◌else◌, ◌==◌,
}
use database_concurrency_con.LockManager.Requests.{
  LockRequest, LockMode, is_exclusive, unlocked, txns_of,
}
use database_concurrency_con.LockManager.Granted.{
  erase_first, IsRequest, granted, exclusives, shared_prefix, is_empty,
}
use database_concurrency_con.LockManager.ManagerB.{index_of, erase_at}

-- The mode of the first request of `t`.
pub mode_of : ℕ → List LockRequest → LockMode
mode_of t [] = unlocked
mode_of t (r ∷ q) = let rest = mode_of t q in if r.txn == t then r.mode else rest

pub erase_at-index_of :
    (t i : ℕ) (q : List LockRequest) → index_of t q ≡ some i → erase_at i q ≡ erase_first t q
unfolding erase_at index_of erase_first
erase_at-index_of t i [] h = cc
erase_at-index_of t zero (r ∷ q) h = ground arith
erase_at-index_of t (suc i) (r ∷ q) h = ground (arith, erase_at-index_of t i q)

pub erase_first_absent : (t : ℕ) (q : List LockRequest) → index_of t q ≡ none → erase_first t q ≡ q
unfolding index_of erase_first
erase_first_absent t [] h = refl
erase_first_absent t (r ∷ q) h = ground (arith, erase_first_absent t q)

pub erase_first-IsRequest :
    (t : ℕ) (q : List LockRequest) → All IsRequest q → All IsRequest (erase_first t q)
unfolding erase_first
erase_first-IsRequest t [] h = tt
erase_first-IsRequest t (r ∷ q) h = ground (arith, erase_first-IsRequest t q h.1)

contains-erase_first :
    (a t : ℕ) (q : List LockRequest)
    → contains a (txns_of q) ≡ false
    → contains a (txns_of (erase_first t q)) ≡ false
unfolding erase_first
contains-erase_first a t [] h = refl
contains-erase_first a t (r ∷ q) h = ground (arith, contains-erase_first a t q)

pub erase_first-Distinct :
    (t : ℕ) (q : List LockRequest) → Distinct (txns_of q) → Distinct (txns_of (erase_first t q))
unfolding erase_first
erase_first-Distinct t [] h = tt
erase_first-Distinct t (r ∷ q) h =
    ground (arith, erase_first-Distinct t q h.1, contains-erase_first r.txn t q h.0)

contains-shared_prefix :
    (a : ℕ) (q : List LockRequest)
    → contains a (txns_of q) ≡ false
    → contains a (txns_of (shared_prefix q)) ≡ false
unfolding shared_prefix
contains-shared_prefix a [] h = refl
contains-shared_prefix a (r ∷ q) h = ground (arith, contains-shared_prefix a q)

shared_prefix-Distinct :
    (q : List LockRequest) → Distinct (txns_of q) → Distinct (txns_of (shared_prefix q))
unfolding shared_prefix
shared_prefix-Distinct [] h = tt
shared_prefix-Distinct (r ∷ q) h =
    ground (arith, shared_prefix-Distinct q h.1, contains-shared_prefix r.txn q h.0)

pub granted-Distinct :
    (q : List LockRequest) → Distinct (txns_of q) → Distinct (txns_of (granted q))
unfolding granted
granted-Distinct [] h = tt
granted-Distinct (r ∷ q) h =
    ground (arith, shared_prefix-Distinct q h.1, contains-shared_prefix r.txn q h.0)

pub no_owners :
    (q : List LockRequest) → (if is_empty q then [] else txns_of (granted q)) ≡ txns_of (granted q)
unfolding granted
no_owners [] = refl
no_owners (r ∷ q) = refl

pub exclusives-erase_first :
    (t i : ℕ) (q : List LockRequest)
    → index_of t q ≡ some i
    → exclusives (erase_first t q) + (if is_exclusive (mode_of t q) then 1 else 0) ≡ exclusives q
unfolding exclusives erase_first mode_of index_of
exclusives-erase_first t i [] h = cc
exclusives-erase_first t zero (r ∷ q) h = ground arith
exclusives-erase_first t (suc i) (r ∷ q) h = ground (arith, exclusives-erase_first t i q)
