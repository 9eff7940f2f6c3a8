-- ===== src/Examples/Locks.antt =====
-- The two lock managers, in states like those of txn/lock_manager_test.cc.
use database_concurrency_con.Prelude.{
  ℕ, ◌≡◌, ◌↔◌, refl, List, [], ◌∷◌, ◌++◌, none, some, contains, All, update, pos, succ,
  if◌then◌else◌, ◌==◌, arith,
}
use database_concurrency_con.LockManager.Requests.{
  LockMode, shared, exclusive, LockRequest, request, is_exclusive, Tables, no_locks, queue, waits,
  txns_of,
}
use database_concurrency_con.LockManager.Granted.{granted, erase_first, exclusives, IsRequest}
use database_concurrency_con.LockManager.ManagerA
use database_concurrency_con.LockManager.ManagerA.Grants.{write_lock-granted}
use database_concurrency_con.LockManager.ManagerA.Cancels.{leftover_wait_starves}
use database_concurrency_con.LockManager.ManagerA.Waits.{Reach, start, next, writes}
use database_concurrency_con.LockManager.ManagerA.Wakeups.{served, release_wakes}
use database_concurrency_con.LockManager.ManagerB.{ManagerB, add_lock, status, release, index_of}
use database_concurrency_con.LockManager.ManagerB.Owners.{status-granted}
use database_concurrency_con.LockManager.ManagerB.Grants.{add_lock-granted}
use database_concurrency_con.LockManager.ManagerB.Advances.{last_waits, less_wait}
use database_concurrency_con.LockManager.ManagerB.Erasures.{mode_of}
use database_concurrency_con.LockManager.ManagerB.Leftovers.{leftover_wait_reruns}
use database_concurrency_con.LockManager.ManagerB.Releases.{release-advances, release-counts_iff}

-- LockManagerA: transactions 1 and 2 ask for key 5.
abbrev one : Tables
one = (ManagerA.write_lock 1 5 (no_locks [])).1

abbrev two : Tables
two = (ManagerA.write_lock 2 5 one).1

two-Reach : Reach (5 ∷ []) two
unfolding ManagerA.write_lock ManagerA.push_request
two-Reach = next (next (start []) (writes 1 5 refl refl)) (writes 2 5 refl (ground arith))

two-table : two.lock_table 5 ≡ some (request exclusive 1 ∷ request exclusive 2 ∷ [])
unfolding ManagerA.write_lock ManagerA.push_request
two-table = ground arith

-- Key 4 is held by transaction 3, and key 5 by transaction 1.
abbrev held : Tables
held = record {
  lock_table =
      update (update (λ _. none) 4 (some (request exclusive 3 ∷ []))) 5
        (some (request exclusive 1 ∷ []));
  ready_txns = 9 ∷ [];
  txn_waits = λ _. none;
}

write_lock-granted_example :
    let (ok, s') = ManagerA.write_lock 2 5 held in
    ((j : ℕ)
      → queue s' j ≡ (if 5 == j then queue held 5 ++ request exclusive 2 ∷ [] else queue held j))
    × (granted (queue s' 5) ≡ (
        if ok then granted (queue held 5) ++ request exclusive 2 ∷ [] else granted (queue held 5)))
    × ((o : ℕ)
        → waits s' o
          ≡ (if ok then waits held o else if 2 == o then succ (waits held o) else waits held o))
    × (s'.ready_txns ≡ 9 ∷ [])
    × (ManagerA.read_lock 2 5 held ≡ ManagerA.write_lock 2 5 held)
write_lock-granted_example = write_lock-granted 2 5 held (refl, tt)

release_wakes_example :
    (s' : Tables) × (ManagerA.release 1 5 two ≡ some s')
    × ((j : ℕ) → queue s' j ≡ (if 5 == j then request exclusive 2 ∷ [] else queue two j))
    × (s'.ready_txns ≡ two.ready_txns ++ served (5 ∷ []) s' (request exclusive 2 ∷ []))
release_wakes_example =
    release_wakes 5 (request exclusive 1) (request exclusive 2 ∷ []) (refl, tt) two-Reach refl
      two-table

leftover_wait_starves_example :
    (s₁ s' : Tables) × (ManagerA.release 2 4 (ManagerA.write_lock 2 4 held).1 ≡ some s₁)
    × (ManagerA.release 1 5 (ManagerA.write_lock 2 5 s₁).1 ≡ some s')
    × (s'.lock_table 5 ≡ some (request exclusive 2 ∷ []))
    × (s'.ready_txns ≡ 9 ∷ [])
leftover_wait_starves_example =
    leftover_wait_starves 2 1 4 5 held (request exclusive 3) [] refl refl refl refl
      (λ e. ground (arith, e))

-- LockManagerB: key 5 is shared by transactions 1 and 2, and 3 waits to have it alone.
abbrev both : List LockRequest
both = request shared 1 ∷ request shared 2 ∷ request exclusive 3 ∷ []

abbrev pub sharing : ManagerB
sharing = record {
  tables = record {
    lock_table = update (λ _. none) 5 (some both);
    ready_txns = [];
    txn_waits = update (λ _. none) 3 (some (pos 1));
  };
  num_exclusive = update (λ _. 0) 5 1;
}

pub requests : All IsRequest both
requests = (λ e. ground (arith, e), (λ e. ground (arith, e), (λ e. ground (arith, e), tt)))

status-granted_example :
    ((status 5 (some (8 ∷ [])) sharing).0 ≡ (shared, some (txns_of (granted both))))
    × ((j : ℕ) → queue (status 5 (some (8 ∷ [])) sharing).1.tables j ≡ queue sharing.tables j)
    × ((status 5 (some (8 ∷ [])) sharing).1.ready_txns ≡ sharing.ready_txns)
    × ((status 5 (some (8 ∷ [])) sharing).1.txn_waits ≡ sharing.txn_waits)
    × ((status 5 (some (8 ∷ [])) sharing).1.num_exclusive ≡ sharing.num_exclusive)
status-granted_example = status-granted 5 (8 ∷ []) sharing requests

add_lock-granted_example :
    let (ok, s') = add_lock shared 4 5 sharing in
    (queue s'.tables 5 ≡ both ++ request shared 4 ∷ [])
    × (granted (queue s'.tables 5)
        ≡ (if ok then granted both ++ request shared 4 ∷ [] else granted both))
    × (s'.num_exclusive 5 ≡ exclusives (queue s'.tables 5))
    × (waits s'.tables 4 ≡ (if ok then waits sharing.tables 4 else succ (waits sharing.tables 4)))
unfolding exclusives
add_lock-granted_example =
    add_lock-granted shared 4 5 sharing (λ e. ground (arith, e)) requests refl (ground arith)

-- The mode that is found behind the erased request.
abbrev pub found : List LockRequest → ℕ → LockMode
found q i = mode_of 3 q

release-advances_example :
    let s' = release found 1 5 sharing in
    let owners = txns_of (granted (erase_first 1 both)) in
    ((j : ℕ) → queue s'.tables j ≡ (if 5 == j then erase_first 1 both else queue sharing.tables j))
    × (s'.ready_txns ≡ [] ++ last_waits sharing.txn_waits owners)
    × ((o : ℕ)
        → s'.txn_waits o
          ≡ (if contains o owners then less_wait (sharing.txn_waits o) else sharing.txn_waits o))
release-advances_example = release-advances found 1 5 sharing requests (refl, (refl, (refl, tt)))

release-counts_iff_example :
    ((release found 1 5 sharing).num_exclusive 5
      ≡ exclusives (queue (release found 1 5 sharing).tables 5))
    ↔ (is_exclusive (found both 0) ≡ is_exclusive (mode_of 1 both))
unfolding exclusives index_of
release-counts_iff_example =
    release-counts_iff found 1 5 0 sharing requests (refl, (refl, (refl, tt))) refl refl
      (ground arith)

-- Transactions 1 and 2 share key 5, and 1 has a wait left over.
abbrev leftover : ManagerB
leftover = record {
  tables = record {
    lock_table = update (λ _. none) 5 (some (request shared 1 ∷ request shared 2 ∷ []));
    ready_txns = 9 ∷ [];
    txn_waits = update (λ _. none) 1 (some (pos 1));
  };
  num_exclusive = λ _. 0;
}

leftover_wait_reruns_example :
    (granted (queue leftover.tables 5) ≡ request shared 1 ∷ request shared 2 ∷ [])
    × (granted (queue (release found 2 5 leftover).tables 5) ≡ request shared 1 ∷ [])
    × ((release found 2 5 leftover).ready_txns ≡ 9 ∷ 1 ∷ [])
leftover_wait_reruns_example =
    leftover_wait_reruns found 1 2 5 leftover (λ e. ground (arith, e)) refl refl
