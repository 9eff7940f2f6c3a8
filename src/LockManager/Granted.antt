-- ===== src/LockManager/Granted.antt =====
-- Which requests of a deque hold the lock, as the comment on `lock_table_` in txn/lock_manager.h
-- has it: an exclusive request in front, or the longest prefix of shared ones.
use database_concurrency_con.Prelude.{
  ℕ, ◌+◌, ◌≡◌, ◌≢◌, Bool, true, false, ◌&&◌, ◌||◌, List, [], ◌∷◌, ◌++◌, arith, All, ◌==◌,
  if◌then◌else◌,
}
use database_concurrency_con.LockManager.Requests.{
  LockMode, unlocked, LockRequest, is_exclusive, is_shared,
}

-- A request is for a shared or an exclusive lock.
abbrev pub IsRequest : LockRequest → Type 0
IsRequest r = r.mode ≢ unlocked

unfoldable pub shared_prefix : List LockRequest → List LockRequest
shared_prefix [] = []
shared_prefix (r ∷ q) = let rest = shared_prefix q in if is_shared r.mode then r ∷ rest else []

unfoldable pub granted : List LockRequest → List LockRequest
granted [] = []
granted (r ∷ q) = if is_exclusive r.mode then r ∷ [] else r ∷ shared_prefix q

-- The mode in which the front request holds the lock.
abbrev pub held_mode : List LockRequest → LockMode
held_mode [] = unlocked
held_mode (r ∷ q) = r.mode

abbrev pub is_empty : List LockRequest → Bool
is_empty [] = true
is_empty (r ∷ q) = false

-- The deque without the first request of `t`.
unfoldable pub erase_first : ℕ → List LockRequest → List LockRequest
erase_first t [] = []
erase_first t (r ∷ q) = let rest = erase_first t q in if r.txn == t then q else r ∷ rest

-- The number of exclusive requests.
unfoldable pub exclusives : List LockRequest → ℕ
exclusives [] = 0
exclusives (r ∷ q) = (if is_exclusive r.mode then 1 else 0) + exclusives q

pub exclusives-append :
    (q : List LockRequest) (r : LockRequest)
    → exclusives (q ++ r ∷ []) ≡ exclusives q + (if is_exclusive r.mode then 1 else 0)
unfolding exclusives
exclusives-append [] r = omega arith
exclusives-append (x ∷ q) r = omega (arith, exclusives-append q r)

shared_prefix-append :
    (q : List LockRequest) (r : LockRequest)
    → All IsRequest q
    → shared_prefix (q ++ r ∷ []) ≡ (
        if exclusives q == 0 && is_shared r.mode
        then shared_prefix q ++ r ∷ []
        else shared_prefix q)
unfolding shared_prefix exclusives
shared_prefix-append [] r h = ground arith
shared_prefix-append (x ∷ q) r h = ground (arith, shared_prefix-append q r h.1)

-- A request behind `q` is granted if `q` is empty, or if all of `q` and the request are shared;
-- and it takes no lock from anyone.
pub granted-append :
    (q : List LockRequest) (r : LockRequest)
    → All IsRequest q
    → granted (q ++ r ∷ []) ≡ (
        if is_empty q || (exclusives q == 0 && is_shared r.mode)
        then granted q ++ r ∷ []
        else granted q)
unfolding granted shared_prefix exclusives
granted-append [] r h = ground arith
granted-append (x ∷ q) r h = ground (arith, shared_prefix-append q r h.1)
