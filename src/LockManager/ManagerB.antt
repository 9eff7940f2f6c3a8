-- ===== src/LockManager/ManagerB.antt =====
-- txn/lock_manager.cc, class LockManagerB: shared and exclusive locks.
pub mod Owners
pub mod Grants
pub mod Advances
pub mod Erasures
pub mod Releases
pub mod Leftovers
use database_concurrency_con.Prelude.{
  ℕ, zero, suc, ◌+◌, ◌-◌, ◌%◌, ◌^◌, Bool, true, false, ◌&&◌, ◌||◌, List, [], ◌∷◌, ◌++◌, Option,
  none, some, ℤ, succ, pred, is_zero, update, ◌==◌, if◌then◌else◌,
}
use mathlib.Core.Option
use database_concurrency_con.LockManager.Requests.{
  LockMode, unlocked, shared, exclusive, LockRequest, request, is_exclusive, is_shared, is_unlocked,
  Tables, waits, queue,
}

-- `_numExclusiveWaiting` holds 0 for a key that it lacks.
pub record ManagerB : Type 0 where
  pub tables : Tables
  pub open tables use *
  pub num_exclusive : ℕ → ℕ

abbrev pub set_queue : ℕ → List LockRequest → ManagerB → ManagerB
set_queue k q s = record s {
  tables = record s.tables { lock_table = update s.lock_table k (some q) };
}

-- `LockManager::_getLockQueue`
pub get_lock_queue : ℕ → ManagerB → List LockRequest × ManagerB
get_lock_queue k s = elim (s.lock_table k) [ none ↦ ([], set_queue k [] s) | some q ↦ (q, s) ]

-- The loop of `Status`, with the mode and the owners so far.
pub scan : List LockRequest → LockMode → List ℕ → LockMode × List ℕ
scan [] mode owners = (mode, owners)
scan (r ∷ q) mode owners =
    let owners' = owners ++ r.txn ∷ [] in
    let rest = scan q r.mode owners' in
    if is_exclusive r.mode && is_shared mode
    then (mode, owners)
    else if is_exclusive r.mode
    then (r.mode, owners')
    else rest

-- The answer of `Status` on a deque; `none` stands for a null `owners`.
pub status_queue : List LockRequest → Option (List ℕ) → LockMode × Option (List ℕ)
unfolding scan
status_queue [] owners = (unlocked, owners)
status_queue (r ∷ q) owners =
    let (mode, found) = scan (r ∷ q) exclusive [] in (mode, Option.map (λ _. found) owners)

-- `LockManagerB::Status`
pub status : ℕ → Option (List ℕ) → ManagerB → (LockMode × Option (List ℕ)) × ManagerB
status k owners s = let (q, s') = get_lock_queue k s in (status_queue q owners, s')

-- `LockManagerB::_noExclusiveWaiting`
pub no_exclusive_waiting : ℕ → ManagerB → Bool
no_exclusive_waiting k s = s.num_exclusive k == 0

-- `_numExclusiveWaiting[key]++` and `--`, on uint64_t
abbrev pub count_up : ℕ → ManagerB → ManagerB
count_up k s = record s {
  num_exclusive = update s.num_exclusive k ((s.num_exclusive k + 1) % 2 ^ 64);
}

abbrev count_down : ℕ → ManagerB → ManagerB
count_down k s = record s {
  num_exclusive = update s.num_exclusive k ((s.num_exclusive k + 2 ^ 64 - 1) % 2 ^ 64);
}

abbrev pub add_wait : ℕ → ManagerB → ManagerB
add_wait t s = record s {
  tables = record s.tables { txn_waits = update s.txn_waits t (some (succ (waits s.tables t))) };
}

-- The end of `_addLock`: whether the request is granted, and one more wait if it is not.
pub grant_or_wait : LockMode → LockMode → ℕ → ℕ → ManagerB → Bool × ManagerB
grant_or_wait mode before t k s =
    let granted =
      if is_shared mode
      then is_unlocked before || no_exclusive_waiting k s
      else is_unlocked before in
    let s' = if is_shared mode then s else count_up k s in
    (granted, if granted then s' else add_wait t s')

-- `LockManagerB::_addLock`
pub add_lock : LockMode → ℕ → ℕ → ManagerB → Bool × ManagerB
add_lock mode t k s =
    let ((before, _), s₁) = status k none s in
    let (q, s₂) = get_lock_queue k s₁ in
    grant_or_wait mode before t k (set_queue k (q ++ request mode t ∷ []) s₂)

-- `LockManagerB::WriteLock`
unfoldable pub write_lock : ℕ → ℕ → ManagerB → Bool × ManagerB
write_lock t k s = add_lock exclusive t k s

-- `LockManagerB::ReadLock`
unfoldable pub read_lock : ℕ → ℕ → ManagerB → Bool × ManagerB
read_lock t k s = add_lock shared t k s

-- The place of the first request of `t`, where the loop of `Release` stops.
unfoldable pub index_of : ℕ → List LockRequest → Option ℕ
index_of t [] = none
index_of t (r ∷ q) = let rest = index_of t q in if r.txn == t then some 0 else Option.map suc rest

-- `queue->erase(it)`
pub erase_at : ℕ → List LockRequest → List LockRequest
erase_at i [] = []
erase_at zero (r ∷ q) = q
erase_at (suc i) (r ∷ q) = r ∷ erase_at i q

-- One round of the last loop of `Release`, for one owner.
pub advance : ℕ → ManagerB → ManagerB
advance t s = elim (s.txn_waits t) [
  | none ↦ s
  | some n ↦ record s {
    tables =
        if is_zero (pred n)
        then record s.tables {
          ready_txns = s.ready_txns ++ t ∷ [];
          txn_waits = update s.txn_waits t none;
        }
        else record s.tables { txn_waits = update s.txn_waits t (some (pred n)) };
  }
]

pub advance_all : List ℕ → ManagerB → ManagerB
advance_all [] s = s
advance_all (t ∷ ts) s = advance_all ts (advance t s)

-- What `Release` does behind the erasure: the owners of the key advance.
pub advance_key : ℕ → ManagerB → ManagerB
advance_key k s =
    let ((_, owners), s') = status k (some []) s in advance_all (Option.get_or owners []) s'

-- `Release` reads `it->mode_` after `queue->erase(it)` has made `it` invalid. What it reads is not
-- in the source: `stale q i` is the mode found there when request `i` of `q` has been erased.
module _ (stale : List LockRequest → ℕ → LockMode) where
  -- The first loop of `Release`.
  pub erase_request : ℕ → ℕ → List LockRequest → ManagerB → ManagerB
  erase_request t k q s = elim (index_of t q) [
    | none ↦ s
    | some i ↦
        let s' = set_queue k (erase_at i q) s in
        if is_exclusive (stale q i) then count_down k s' else s'
  ]

  -- `LockManagerB::Release`
  unfoldable pub release : ℕ → ℕ → ManagerB → ManagerB
  release t k s = let (q, s') = get_lock_queue k s in advance_key k (erase_request t k q s')
