-- ===== src/LockManager/Interface.antt =====
-- txn/lock_manager.h: the abstract class LockManager, as the locking scheduler uses it, and what
-- both of its implementations do to the deques. Which requests are granted and which transactions
-- become ready differs, and is not part of these laws.
use database_concurrency_con.Prelude.{
  ℕ, ◌≡◌, Bool, true, false, List, [], ◌∷◌, ◌++◌, Option, some, contains, if◌then◌else◌, ◌==◌,
}
use database_concurrency_con.LockManager.Granted.{erase_first}
use database_concurrency_con.LockManager.Requests.{
  LockMode, exclusive, LockRequest, request, txns_of,
}

-- The virtual methods, the deque of the ready transactions, which belongs to the processor, and the
-- requests for each key. `release` gives `none` where a null pointer is read.
pub record LockManager (S : Type 0) : Type 0 where
  pub read_lock : ℕ → ℕ → S → Bool × S
  pub write_lock : ℕ → ℕ → S → Bool × S
  pub release : ℕ → ℕ → S → Option S
  pub ready_txns : S → List ℕ
  pub set_ready : List ℕ → S → S
  pub queue : S → ℕ → List LockRequest

-- Locking appends a request, and releasing removes it. The laws hold in valid states, for calls
-- that meet the requirement of the class: no transaction asks twice for a key.
pub record LockLaws {S : Type 0} (m : LockManager S) (IsValid : S → Type 0) : Type 0 where
  pub read_mode : LockMode
  pub read_lock_lem :
      (t k : ℕ) (s : S)
      → IsValid s
      → contains t (txns_of (m.queue s k)) ≡ false
      → IsValid (m.read_lock t k s).1
        × ((j : ℕ)
            → m.queue (m.read_lock t k s).1 j
              ≡ (if k == j then m.queue s k ++ request read_mode t ∷ [] else m.queue s j))
  pub write_lock_lem :
      (t k : ℕ) (s : S)
      → IsValid s
      → contains t (txns_of (m.queue s k)) ≡ false
      → IsValid (m.write_lock t k s).1
        × ((j : ℕ)
            → m.queue (m.write_lock t k s).1 j
              ≡ (if k == j then m.queue s k ++ request exclusive t ∷ [] else m.queue s j))
  pub release_lem :
      (t k : ℕ) (s : S)
      → IsValid s
      → contains t (txns_of (m.queue s k)) ≡ true
      → (s' : S) × (m.release t k s ≡ some s')
        × IsValid s'
        × ((j : ℕ) → m.queue s' j ≡ (if k == j then erase_first t (m.queue s k) else m.queue s j))
