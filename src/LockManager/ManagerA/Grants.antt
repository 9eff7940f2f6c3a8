-- ===== src/LockManager/ManagerA/Grants.antt =====
-- LockManagerA: who owns a lock after `WriteLock` and `ReadLock`, as the comment on `lock_table_` has
-- it.
use database_concurrency_con.Prelude.{
  ℕ, ◌≡◌, refl, ◌∙◌, true, List, [], ◌∷◌, ◌++◌, arith, All, if◌then◌else◌, ◌==◌, succ,
}
use database_concurrency_con.LockManager.Requests.{
  LockRequest, request, exclusive, is_exclusive, Tables, queue, waits,
}
use database_concurrency_con.LockManager.Granted.{granted, is_empty}
use database_concurrency_con.LockManager.ManagerA.{write_lock, read_lock}
use database_concurrency_con.LockManager.ManagerA.Locks.{write_lock_lem}

-- A deque in which every request is for an exclusive lock has its front request as owner.
append-granted :
    (q : List LockRequest) (t : ℕ)
    → All (λ r. is_exclusive r.mode ≡ true) q
    → granted (q ++ request exclusive t ∷ [])
      ≡ (if is_empty q then granted q ++ request exclusive t ∷ [] else granted q)
unfolding granted
append-granted [] t h = refl
append-granted (r ∷ q) t h = ground arith

-- On a deque of exclusive requests a request for a write lock goes to the end of the deque, as an
-- exclusive one, and no other deque changes. It is granted if and only if its transaction becomes an
-- owner of the lock, and it takes the lock from nobody; the transaction waits for one lock more if it
-- is not granted, all others for as many as before, and no transaction becomes ready. A request for a
-- read lock does the same.
pub write_lock-granted :
    (t k : ℕ) (s : Tables)
    → All (λ r. is_exclusive r.mode ≡ true) (queue s k)
    → let (ok, s') = write_lock t k s in
      ((j : ℕ) → queue s' j ≡ (if k == j then queue s k ++ request exclusive t ∷ [] else queue s j))
      × (granted (queue s' k)
          ≡ (if ok then granted (queue s k) ++ request exclusive t ∷ [] else granted (queue s k)))
      × ((o : ℕ)
          → waits s' o ≡ (if ok then waits s o else if t == o then succ (waits s o) else waits s o))
      × (s'.ready_txns ≡ s.ready_txns)
      × (read_lock t k s ≡ write_lock t k s)
write_lock-granted t k s h = rw ((write_lock_lem t k s).0) (
  λ j. ground arith,
  ground (arith, append-granted (queue s k) t h),
  λ o. ground arith,
  ground arith,
  (write_lock_lem t k s).1 ∙ (write_lock_lem t k s).0,
)
