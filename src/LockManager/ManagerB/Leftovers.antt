-- ===== src/LockManager/ManagerB/Leftovers.antt =====
-- LockManagerB: what a wait does that stays counted when its request has been cancelled.
use database_concurrency_con.Prelude.{ℕ, ◌≡◌, ◌≢◌, refl, List, [], ◌∷◌, ◌++◌, some, pos, arith}
use database_concurrency_con.LockManager.Requests.{LockMode, shared, LockRequest, request, queue}
use database_concurrency_con.LockManager.Granted.{granted, shared_prefix, erase_first}
use database_concurrency_con.LockManager.ManagerB.{ManagerB, release}
use database_concurrency_con.LockManager.ManagerB.Advances.{last_waits}
use database_concurrency_con.LockManager.ManagerB.Releases.{release-advances}

module _ (stale : List LockRequest → ℕ → LockMode) (t u k : ℕ) where
  -- A transaction that holds a shared lock, and has a wait left over from a cancelled request for
  -- another key, becomes ready once more when the other holder of the lock releases it, although it
  -- has become the owner of nothing new.
  pub leftover_wait_reruns :
      (s : ManagerB)
      → t ≢ u
      → queue s.tables k ≡ request shared t ∷ request shared u ∷ []
      → s.txn_waits t ≡ some (pos 1)
      → (granted (queue s.tables k) ≡ request shared t ∷ request shared u ∷ [])
        × (granted (queue (release stale u k s).tables k) ≡ request shared t ∷ [])
        × ((release stale u k s).ready_txns ≡ s.ready_txns ++ t ∷ [])
  unfolding granted shared_prefix erase_first last_waits
  leftover_wait_reruns s other q w =
      let (queues, ready, _) =
        release-advances stale u k s
          (rw q ((λ e. ground (arith, e)), ((λ e. ground (arith, e)), tt)))
          (rw q (ground (arith, other), (refl, tt))) in
      let left : erase_first u (queue s.tables k) ≡ request shared t ∷ [] =
        rw q (ground (arith, other)) in
      (rw q refl, rw (queues k, left) (ground arith), rw (ready, left) (ground (arith, w)))
