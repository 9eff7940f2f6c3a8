-- ===== src/Processor/Exclusive/Deques.antt =====
-- LockManagerA: what `WriteLock` does to an empty and to a full deque, and `Release` to the last request.
use database_concurrency_con.Prelude.{
  ℕ, ◌≡◌, inl, inr, refl, ap, ◌∙◌, true, false, List, [], ◌∷◌, ◌++◌, some, arith, contains,
  Option-cases, ==_self,
}
use database_concurrency_con.LockManager.Granted.{erase_first}
use database_concurrency_con.LockManager.Requests.{
  exclusive, LockRequest, request, txns_of, Tables, queue,
}
use database_concurrency_con.LockManager.ManagerA.{write_lock, release, serve_next}
use database_concurrency_con.LockManager.ManagerA.Locks.{
  set_queue, add_wait, write_lock_lem, release_lem,
}
use database_concurrency_con.LockManager.ManagerA.Cancels.{erase_first-append}

pub table_of :
    (k : ℕ) (s : Tables) (r : LockRequest) (q : List LockRequest)
    → queue s k ≡ r ∷ q
    → s.lock_table k ≡ some (r ∷ q)
table_of k s r q e = elim (Option-cases (s.lock_table k)) [
  | inl none_there ↦ ground (arith, rw none_there at e)
  | inr (q', there) ↦ there ∙ ap some (rw there at e)
]

-- The last request of a deque is released: only the deque changes.
pub release_last :
    (t k : ℕ) (s : Tables) (q : List LockRequest)
    → queue s k ≡ q ++ request exclusive t ∷ []
    → contains t (txns_of q) ≡ false
    → release t k s ≡ some (set_queue k q s)
unfolding serve_next erase_first
release_last t k s [] e out =
    (release_lem t k s).0 (request exclusive t ∷ []) (table_of k s _ _ e)
    ∙ ground (arith, ==_self t)
release_last t k s (r ∷ q) e out =
    (release_lem t k s).0 (r ∷ q ++ request exclusive t ∷ []) (table_of k s _ _ e)
    ∙ rw (erase_first-append t (request exclusive t) (r ∷ q) refl out) (ground (arith, out))

pub write_lock_empty :
    (t k : ℕ) (s : Tables)
    → queue s k ≡ []
    → write_lock t k s ≡ (true, set_queue k (request exclusive t ∷ []) s)
write_lock_empty t k s e = (write_lock_lem t k s).0 ∙ rw e refl

pub write_lock_full :
    (t k : ℕ) (s : Tables) (r : LockRequest) (q : List LockRequest)
    → queue s k ≡ r ∷ q
    → write_lock t k s ≡ (false, add_wait t (set_queue k (r ∷ q ++ request exclusive t ∷ []) s))
write_lock_full t k s r q e = (write_lock_lem t k s).0 ∙ rw e refl
