-- ===== src/LockManager/Requests.antt =====
-- txn/lock_manager.h: lock modes, lock requests and the tables that both lock managers keep. A
-- pointer to a transaction is a number. Each key's deque is allocated on its own, so that the
-- table holds the deques themselves.
use database_concurrency_con.Prelude.{
  ℕ, Bool, true, false, List, [], map, Option, none, get_or, ℤ, pos,
}

pub data LockMode : Type 0 where
  unlocked shared exclusive : LockMode

pub record LockRequest : Type 0 where
  pub txn : ℕ
  pub mode : LockMode

-- The constructor of `LockRequest`.
abbrev pub request : LockMode → ℕ → LockRequest
request m t = record { txn = t; mode = m }

-- `mode == EXCLUSIVE`
abbrev pub is_exclusive : LockMode → Bool
is_exclusive exclusive = true
is_exclusive shared = false
is_exclusive unlocked = false

-- `mode == SHARED`
abbrev pub is_shared : LockMode → Bool
is_shared shared = true
is_shared exclusive = false
is_shared unlocked = false

-- `mode == UNLOCKED`
abbrev pub is_unlocked : LockMode → Bool
is_unlocked unlocked = true
is_unlocked shared = false
is_unlocked exclusive = false

-- The protected members of `LockManager`. A key that the lock table lacks reads as a null pointer,
-- and so does a key that `[]` has just entered: both are `none`.
pub record Tables : Type 0 where
  pub lock_table : ℕ → Option (List LockRequest)
  pub ready_txns : List ℕ
  pub txn_waits : ℕ → Option ℤ

abbrev pub no_locks : List ℕ → Tables
no_locks ready = record { lock_table = λ _. none; ready_txns = ready; txn_waits = λ _. none }

-- The requests for a key, oldest first.
abbrev pub queue : Tables → ℕ → List LockRequest
queue s k = get_or (s.lock_table k) []

-- The value of `txn_waits_[txn]`, which `[]` enters as 0 if it is missing.
abbrev pub waits : Tables → ℕ → ℤ
waits s t = get_or (s.txn_waits t) (pos 0)

abbrev pub txns_of : List LockRequest → List ℕ
txns_of = map (λ r. r.txn)
