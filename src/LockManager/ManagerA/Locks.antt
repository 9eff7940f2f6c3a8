-- ===== src/LockManager/ManagerA/Locks.antt =====
-- LockManagerA: `WriteLock`, `ReadLock` and `Release` on a deque and on the waiting transactions.
use database_concurrency_con.Prelude.{
  ℕ, ◌≡◌, refl, Bool, true, false, List, [], ◌∷◌, ◌++◌, Option, none, some, get_or, arith, length,
  length-append, if◌then◌else◌, ◌==◌, update, succ,
}
use database_concurrency_con.LockManager.Requests.{
  Tables, LockRequest, request, exclusive, queue, waits,
}
use database_concurrency_con.LockManager.Granted.{erase_first, is_empty}
use database_concurrency_con.LockManager.ManagerA.{
  push_request, write_lock, read_lock, erase_loop, serve_next, release_queue, release,
}

abbrev pub set_queue : ℕ → List LockRequest → Tables → Tables
set_queue k q s = record s { lock_table = update s.lock_table k (some q) }

abbrev pub add_wait : ℕ → Tables → Tables
add_wait t s = record s { txn_waits = update s.txn_waits t (some (succ (waits s t))) }

push_request_lem :
    (q : Option (List LockRequest)) (r : LockRequest) → push_request q r ≡ get_or q [] ++ r ∷ []
unfolding push_request
push_request_lem none r = refl
push_request_lem (some q) r = refl

single : (q : List LockRequest) (r : LockRequest) → (length (q ++ r ∷ []) == 1) ≡ is_empty q
single [] r = refl
single (x ∷ q) r = ground (arith, length-append q (r ∷ []))

-- A lock is granted if and only if the key's deque is empty; the request goes to its end, and a
-- transaction whose request is not granted waits for one lock more. `ReadLock` does the same.
pub write_lock_lem :
    (t k : ℕ) (s : Tables)
    → (write_lock t k s ≡ (
      is_empty (queue s k),
      (let s' = set_queue k (queue s k ++ request exclusive t ∷ []) s in
          if is_empty (queue s k) then s' else add_wait t s'),
    ))
      × (read_lock t k s ≡ write_lock t k s)
unfolding write_lock read_lock
write_lock_lem t k s = (
  rw
      (
        push_request_lem (s.lock_table k) (request exclusive t),
        single (queue s k) (request exclusive t),
      )
      (ground arith),
  refl,
)

-- Whether the request in front, if there is one, is of `t`.
abbrev pub is_holder : ℕ → List LockRequest → Bool
is_holder t [] = true
is_holder t (r ∷ q) = r.txn == t

erase_loop_later : (t : ℕ) (q : List LockRequest) → erase_loop t q false ≡ (erase_first t q, false)
unfolding erase_loop erase_first
erase_loop_later t [] = refl
erase_loop_later t (r ∷ q) = rw (erase_loop_later t q) (ground arith)

erase_loop_lem :
    (t : ℕ) (q : List LockRequest) → erase_loop t q true ≡ (erase_first t q, is_holder t q)
unfolding erase_loop erase_first
erase_loop_lem t [] = refl
erase_loop_lem t (r ∷ q) = rw (erase_loop_later t q) (ground arith)

-- `Release` removes the transaction's first request for the key; only if that request was in front
-- is the next one in line served. A key that has no deque yet is a null pointer.
pub release_lem :
    (t k : ℕ) (s : Tables)
    → ((q : List LockRequest)
        → s.lock_table k ≡ some q
        → release t k s
          ≡ some (serve_next (erase_first t q) (is_holder t q) (set_queue k (erase_first t q) s)))
      × (s.lock_table k ≡ none → release t k s ≡ none)
unfolding release release_queue
release_lem t k s = (λ q e. rw (e, release, erase_loop_lem t q) refl, λ e. rw (e, release) refl)
