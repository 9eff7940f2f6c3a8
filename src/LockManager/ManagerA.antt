-- ===== src/LockManager/ManagerA.antt =====
-- txn/lock_manager.cc, class LockManagerA: exclusive locks only. `none` as a result is a null
-- pointer that is read.
pub mod Locks
pub mod Cancels
pub mod Grants
pub mod Waits
pub mod Wakeups
use database_concurrency_con.Prelude.{
  ℕ, Bool, true, false, List, [], ◌∷◌, ◌++◌, Option, none, some, length, update, succ, pred,
  is_nonpos, ◌==◌, if◌then◌else◌,
}
use database_concurrency_con.LockManager.Requests.{
  LockMode, unlocked, exclusive, LockRequest, request, Tables, waits,
}

-- The two branches of the insertion: at the end of the deque, or into a new one.
unfoldable pub push_request : Option (List LockRequest) → LockRequest → List LockRequest
push_request none r = r ∷ []
push_request (some q) r = q ++ r ∷ []

-- `LockManagerA::WriteLock`
unfoldable pub write_lock : ℕ → ℕ → Tables → Bool × Tables
write_lock t k s =
    let q = push_request (s.lock_table k) (request exclusive t) in
    let s' = record s { lock_table = update s.lock_table k (some q) } in
    if length q == 1
    then (true, s')
    else (false, record s' { txn_waits = update s.txn_waits t (some (succ (waits s t))) })

-- `LockManagerA::ReadLock`
unfoldable pub read_lock : ℕ → ℕ → Tables → Bool × Tables
read_lock t k s = write_lock t k s

-- The loop of `Release`: the deque after it, and `deleteHappened`.
pub erase_loop : ℕ → List LockRequest → Bool → List LockRequest × Bool
erase_loop t [] happened = ([], happened)
erase_loop t (r ∷ q) happened =
    let (q', happened') = erase_loop t q false in
    if r.txn == t then (q, happened) else (r ∷ q', happened')

-- One less wait for `t`, which is ready when none is left.
unfoldable pub serve : ℕ → Tables → Tables
serve t s =
    if is_nonpos (pred (waits s t))
    then record s { ready_txns = s.ready_txns ++ t ∷ []; txn_waits = update s.txn_waits t none }
    else record s { txn_waits = update s.txn_waits t (some (pred (waits s t))) }

-- The `if` behind the loop.
unfoldable pub serve_next : List LockRequest → Bool → Tables → Tables
serve_next [] happened s = s
serve_next (r ∷ q) true s = serve r.txn s
serve_next (r ∷ q) false s = s

-- The body of `Release`, on the deque that the key has.
pub release_queue : ℕ → ℕ → List LockRequest → Tables → Tables
release_queue t k q s =
    let (q', happened) = erase_loop t q true in
    serve_next q' happened (record s { lock_table = update s.lock_table k (some q') })

-- `LockManagerA::Release`
unfoldable pub release : ℕ → ℕ → Tables → Option Tables
release t k s = elim (s.lock_table k) [ none ↦ none | some q ↦ some (release_queue t k q s) ]

-- The answer of `Status` on a deque; `owners` is what `*owners` held before the call.
unfoldable pub status_queue : List LockRequest → List ℕ → LockMode × List ℕ
status_queue [] owners = (unlocked, owners)
status_queue (r ∷ q) owners = (exclusive, r.txn ∷ [])

-- `LockManagerA::Status`
unfoldable pub status : ℕ → List ℕ → Tables → Option (LockMode × List ℕ)
status k owners s = elim (s.lock_table k) [ none ↦ none | some q ↦ some (status_queue q owners) ]
