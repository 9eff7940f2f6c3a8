-- ===== src/LockManager/ManagerA/Cancels.antt =====
-- LockManagerA: a request that is cancelled while it waits.
use database_concurrency_con.Prelude.{
  ℕ, suc, none, ◌≡◌, ◌≢◌, refl, ◌∙◌, sym, false, List, [], ◌∷◌, ◌++◌, some, pos, arith, contains,
  ◌==◌, ==_self, update_same, update-update,
}
use database_concurrency_con.LockManager.Requests.{Tables, LockRequest, request, exclusive, txns_of}
use database_concurrency_con.LockManager.Granted.{erase_first}
use database_concurrency_con.LockManager.ManagerA.{write_lock, release, serve, serve_next}
use database_concurrency_con.LockManager.ManagerA.Locks.{
  set_queue, add_wait, write_lock_lem, release_lem,
}

pub erase_first-append :
    (t : ℕ) (r : LockRequest) (q : List LockRequest)
    → r.txn ≡ t
    → contains t (txns_of q) ≡ false
    → erase_first t (q ++ r ∷ []) ≡ q
unfolding erase_first
erase_first-append t r [] e h = ground arith
erase_first-append t r (x ∷ q) e h = ground (arith, erase_first-append t r q e)

-- A request, by a transaction not yet in the key's deque, that has to wait and is then released
-- leaves the lock table and the ready transactions as they were, but its wait stays counted in
-- `txn_waits_`.
release-write_lock_waiting :
    (t k : ℕ) (s : Tables) (r : LockRequest) (q : List LockRequest)
    → s.lock_table k ≡ some (r ∷ q)
    → contains t (txns_of (r ∷ q)) ≡ false
    → release t k (write_lock t k s).1 ≡ some (add_wait t s)
unfolding serve_next
release-write_lock_waiting t k s r q e h =
    rw ((write_lock_lem t k s).0, e)
      ((release_lem t k s').0 (r ∷ q ++ request exclusive t ∷ []) (ground arith)
        ∙ rw
            (
              erase_first-append t (request exclusive t) (r ∷ q) refl h,
              not_first,
              update-update s.lock_table k (some (r ∷ q ++ request exclusive t ∷ []))
                  (some (r ∷ q)),
              sym e,
              update_same s.lock_table k,
            )
            refl)
  where
    s' : Tables
    s' = add_wait t (set_queue k (r ∷ q ++ request exclusive t ∷ []) s)

    not_first : (r.txn == t) ≡ false
    not_first = ground arith

-- When the holder of the one lock that a transaction with another counted wait asks for releases it,
-- the transaction becomes the owner of the lock and does not become ready.
served_not_ready :
    (t holder k n : ℕ) (s : Tables)
    → s.lock_table k ≡ some (request exclusive holder ∷ [])
    → holder ≢ t
    → s.txn_waits t ≡ some (pos (suc n))
    → (s' : Tables) × (release holder k (write_lock t k s).1 ≡ some s')
      × (s'.lock_table k ≡ some (request exclusive t ∷ []))
      × (s'.ready_txns ≡ s.ready_txns)
unfolding serve_next serve erase_first
served_not_ready t holder k n s e d w = (
  serve t (set_queue k (request exclusive t ∷ []) s'),
  rw ((write_lock_lem t k s).0, e)
      ((release_lem holder k s').0 (request exclusive holder ∷ request exclusive t ∷ [])
          (ground arith)
        ∙ rw (==_self holder)),
  ground arith,
  ground (arith, w),
)
  where
    s' : Tables
    s' = add_wait t (set_queue k (request exclusive holder ∷ request exclusive t ∷ []) s)

-- A cancelled request makes its transaction starve. A transaction that waits for nothing asks for a
-- key whose deque others stand in, has to wait, and releases the key again; this gives a state s₁. It
-- then asks for a key that another transaction alone has; and that one releases it. Now the
-- transaction is the only one in the deque of that key, and yet it has not become ready.
pub leftover_wait_starves :
    (t holder j k : ℕ) (s : Tables) (r : LockRequest) (q : List LockRequest)
    → s.txn_waits t ≡ none
    → s.lock_table j ≡ some (r ∷ q)
    → contains t (txns_of (r ∷ q)) ≡ false
    → s.lock_table k ≡ some (request exclusive holder ∷ [])
    → holder ≢ t
    → (s₁ s' : Tables) × (release t j (write_lock t j s).1 ≡ some s₁)
      × (release holder k (write_lock t k s₁).1 ≡ some s')
      × (s'.lock_table k ≡ some (request exclusive t ∷ []))
      × (s'.ready_txns ≡ s.ready_txns)
leftover_wait_starves t holder j k s r q idle other new e d =
    let (s', released, owner, ready) =
      served_not_ready t holder k 0 (add_wait t s) e d (ground (arith, idle, ==_self t)) in
    (add_wait t s, s', release-write_lock_waiting t j s r q other new, released, owner, ready)
