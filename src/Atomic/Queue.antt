-- ===== src/Atomic/Queue.antt =====
-- utils/atomic.h, class AtomicQueue: the front of the queue is the head of the list. `is_free` says
-- whether TryLock finds the mutex unlocked.
use database_concurrency_con.Prelude.{
  ℕ, Bool, true, false, List, [], ◌∷◌, ◌++◌, Option, none, some, length, if◌then◌else◌,
}

module _ {ℓ} {A : Type ℓ} where
  -- `AtomicQueue::Size`
  unfoldable pub size : List A → ℕ
  size q = length q

  -- `AtomicQueue::Push`
  unfoldable pub push : A → List A → List A
  push item q = q ++ item ∷ []

  -- `AtomicQueue::Pop`: the element that is popped, if there is one.
  unfoldable pub pop : List A → Option A × List A
  pop [] = (none, [])
  pop (x ∷ q) = (some x, q)

  -- `AtomicQueue::PushNonBlocking`
  unfoldable pub push_non_blocking : Bool → A → List A → Bool × List A
  push_non_blocking is_free item q = if is_free then (true, q ++ item ∷ []) else (false, q)

  -- `AtomicQueue::PopNonBlocking`
  unfoldable pub pop_non_blocking : Bool → List A → Option A × List A
  pop_non_blocking is_free [] = (none, [])
  pop_non_blocking is_free (x ∷ q) = if is_free then (some x, q) else (none, x ∷ q)
