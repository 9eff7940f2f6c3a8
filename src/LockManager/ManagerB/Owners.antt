-- ===== src/LockManager/ManagerB/Owners.antt =====
-- LockManagerB: what `Status` answers, against the comment on `lock_table_` in
-- txn/lock_manager.h.
use database_concurrency_con.Prelude.{
  ℕ, ◌≡◌, refl, ap, ◌∙◌, List, [], ◌∷◌, ◌++◌, Option, some, arith, All, append-nil, append_assoc,
  if◌then◌else◌, update, update_same, update-update, sym, ◌==◌, Option-cases, inl, inr,
}
use database_concurrency_con.LockManager.Requests.{shared, exclusive, LockRequest, queue, txns_of}
use database_concurrency_con.LockManager.Granted.{
  IsRequest, shared_prefix, granted, held_mode, is_empty,
}
use database_concurrency_con.LockManager.ManagerB.{
  ManagerB, set_queue, get_lock_queue, scan, status_queue, status,
}

scan-shared :
    (q : List LockRequest) (found : List ℕ)
    → All IsRequest q
    → scan q shared found ≡ (shared, found ++ txns_of (shared_prefix q))
unfolding scan shared_prefix
scan-shared [] found h = rw append-nil
scan-shared (r ∷ q) found h = ground (
  arith,
  scan-shared q (found ++ r.txn ∷ []) h.1,
  append_assoc found (r.txn ∷ []) (txns_of (shared_prefix q)),
  append-nil found,
)

scan-granted :
    (r : LockRequest) (q : List LockRequest)
    → All IsRequest (r ∷ q)
    → scan (r ∷ q) exclusive [] ≡ (r.mode, txns_of (granted (r ∷ q)))
unfolding scan granted
scan-granted r q h = ground (arith, scan-shared q (r.txn ∷ []) h.1)

pub status_queue-granted :
    (q : List LockRequest) (owners : List ℕ)
    → All IsRequest q
    → status_queue q (some owners)
      ≡ (held_mode q, some (if is_empty q then owners else txns_of (granted q)))
unfolding status_queue
status_queue-granted [] owners h = refl
status_queue-granted (r ∷ q) owners h = rw (scan-granted r q h)

-- The mode does not depend on whether the owners are asked for.
pub status_queue-held_mode :
    (q : List LockRequest) (owners : Option (List ℕ))
    → All IsRequest q
    → (status_queue q owners).0 ≡ held_mode q
unfolding status_queue
status_queue-held_mode [] owners h = refl
status_queue-held_mode (r ∷ q) owners h = rw (scan-granted r q h)

pub queue-set_queue :
    (k j : ℕ) (q : List LockRequest) (s : ManagerB)
    → queue (set_queue k q s).tables j ≡ (if k == j then q else queue s.tables j)
queue-set_queue k j q s = ground arith

set_queue-set_queue :
    (k : ℕ) (q q' : List LockRequest) (s : ManagerB)
    → set_queue k q' (set_queue k q s) ≡ set_queue k q' s
set_queue-set_queue k q q' s = λ i. record s {
  tables = record s.tables { lock_table = update-update s.lock_table k (some q) (some q') i };
}

set_queue_same :
    (k : ℕ) (q : List LockRequest) (s : ManagerB) → s.lock_table k ≡ some q → set_queue k q s ≡ s
set_queue_same k q s e = λ i. record s {
  tables = record s.tables {
    lock_table = (ap (update s.lock_table k) (sym e) ∙ update_same s.lock_table k) i;
  };
}

-- The deque that is handed out is the key's, and it is the key's from then on.
pub get_lock_queue_lem :
    (k : ℕ) (s : ManagerB)
    → get_lock_queue k s ≡ (queue s.tables k, set_queue k (queue s.tables k) s)
unfolding get_lock_queue
get_lock_queue_lem k s = elim (Option-cases (s.lock_table k)) [
  | inl e ↦ rw (e, get_lock_queue)
  | inr (q, e) ↦ rw (e, get_lock_queue) (λ i. (q, sym (set_queue_same k q s e) i))
]

pub status_lem :
    (k : ℕ) (owners : Option (List ℕ)) (s : ManagerB)
    → status k owners s ≡ (status_queue (queue s.tables k) owners, set_queue k (queue s.tables k) s)
unfolding status
status_lem k owners s = rw (get_lock_queue_lem k s)

-- For a key with any deque, of shared and exclusive requests, `Status` reports the mode of the
-- front request and, in order, exactly the transactions whose requests are granted; for a key
-- with none it reports UNLOCKED and leaves `*owners` as it was. In either case no key's deque
-- changes, nor do the other tables.
pub status-granted :
    (k : ℕ) (owners : List ℕ) (s : ManagerB)
    → All IsRequest (queue s.tables k)
    → ((status k (some owners) s).0 ≡ (
      held_mode (queue s.tables k),
      some (if is_empty (queue s.tables k) then owners else txns_of (granted (queue s.tables k))),
    ))
      × ((j : ℕ) → queue (status k (some owners) s).1.tables j ≡ queue s.tables j)
      × ((status k (some owners) s).1.ready_txns ≡ s.ready_txns)
      × ((status k (some owners) s).1.txn_waits ≡ s.txn_waits)
      × ((status k (some owners) s).1.num_exclusive ≡ s.num_exclusive)
status-granted k owners s h =
    rw (status_lem k (some owners) s)
      (status_queue-granted (queue s.tables k) owners h, λ j. ground arith, refl, refl, refl)
