-- ===== src/LockManager/ManagerB/Grants.antt =====
-- LockManagerB: what `_addLock`, and so `ReadLock` and `WriteLock`, does with a request.
use database_concurrency_con.Prelude.{
  ℕ, ◌+◌, ◌^◌, ◌<◌, ◌≡◌, ◌≢◌, ap, ◌∙◌, ==_self, refl, Bool, ◌&&◌, ◌||◌, List, [], ◌∷◌, ◌++◌, none,
  some, arith, All, if◌then◌else◌, ◌==◌, update-update, succ,
}
use database_concurrency_con.LockManager.Requests.{
  LockMode, unlocked, LockRequest, request, is_shared, is_unlocked, queue, waits,
}
use database_concurrency_con.LockManager.Granted.{
  IsRequest, granted, exclusives, held_mode, is_empty, granted-append, exclusives-append,
}
use database_concurrency_con.LockManager.ManagerB.{
  ManagerB, set_queue, grant_or_wait, add_lock, count_up, add_wait, no_exclusive_waiting,
}
use database_concurrency_con.LockManager.ManagerB.Owners.{
  queue-set_queue, get_lock_queue_lem, status_queue-held_mode, status_lem,
}

-- The state from which a request for `k` is answered: the deque with the request, and the count.
abbrev requested : LockMode → ℕ → ℕ → ManagerB → ManagerB
requested mode t k s =
    let s' = set_queue k (queue s.tables k ++ request mode t ∷ []) s in
    if is_shared mode then s' else count_up k s'

-- Whether the request is granted.
abbrev is_granted : LockMode → ℕ → ManagerB → Bool
is_granted mode k s = is_empty (queue s.tables k) || (is_shared mode && s.num_exclusive k == 0)

held_mode-is_unlocked :
    (q : List LockRequest) → All IsRequest q → is_unlocked (held_mode q) ≡ is_empty q
held_mode-is_unlocked [] h = refl
held_mode-is_unlocked (r ∷ q) h = ground arith

grant_or_wait_lem :
    (mode before : LockMode) (t k : ℕ) (s s' : ManagerB)
    → mode ≢ unlocked
    → is_unlocked before ≡ is_empty (queue s.tables k)
    → s'.num_exclusive ≡ s.num_exclusive
    → grant_or_wait mode before t k s' ≡ (
      is_granted mode k s,
      (let s'' = if is_shared mode then s' else count_up k s' in
          if is_granted mode k s then s'' else add_wait t s''),
    )
unfolding grant_or_wait no_exclusive_waiting
grant_or_wait_lem mode before t k s s' m h e = rw (e, h) (ground arith)

pub add_lock_lem :
    (mode : LockMode) (t k : ℕ) (s : ManagerB)
    → mode ≢ unlocked
    → All IsRequest (queue s.tables k)
    → add_lock mode t k s ≡ (
      is_granted mode k s,
      (if is_granted mode k s then requested mode t k s else add_wait t (requested mode t k s)),
    )
unfolding add_lock
add_lock_lem mode t k s m h =
    rw
      (
        status_lem k none s,
        get_lock_queue_lem k (set_queue k q s),
        queue-set_queue k k q s,
        ==_self k,
        update-update s.lock_table k (some q) (some q),
        update-update s.lock_table k (some q) (some (q ++ request mode t ∷ [])),
      )
      (grant_or_wait_lem mode _ t k s _ m
        (ap is_unlocked (status_queue-held_mode q none h) ∙ held_mode-is_unlocked q h) refl)
  where
    q : List LockRequest
    q = queue s.tables k

-- A shared or exclusive request, on a deque of such requests whose exclusive ones are counted
-- right and are fewer than 2 ^ 64 - 1, goes to the end of the deque. It is granted if and only if
-- its transaction becomes one of the owners of the lock, and it takes the lock from nobody; the
-- count stays right, and the transaction waits for one lock more if the request is not granted.
pub add_lock-granted :
    (mode : LockMode) (t k : ℕ) (s : ManagerB)
    → mode ≢ unlocked
    → All IsRequest (queue s.tables k)
    → s.num_exclusive k ≡ exclusives (queue s.tables k)
    → exclusives (queue s.tables k) + 1 < 2 ^ 64
    → let (ok, s') = add_lock mode t k s in
      (queue s'.tables k ≡ queue s.tables k ++ request mode t ∷ [])
      × (granted (queue s'.tables k) ≡ (
          if ok
          then granted (queue s.tables k) ++ request mode t ∷ []
          else granted (queue s.tables k)))
      × (s'.num_exclusive k ≡ exclusives (queue s'.tables k))
      × (waits s'.tables t ≡ (if ok then waits s.tables t else succ (waits s.tables t)))
add_lock-granted mode t k s m h c small = rw (add_lock_lem mode t k s m h) (
    ground (
      arith,
      granted-append (queue s.tables k) (request mode t) h,
      exclusives-append (queue s.tables k) (request mode t),
    ))
