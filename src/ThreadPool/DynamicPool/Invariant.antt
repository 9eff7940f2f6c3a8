-- ===== src/ThreadPool/DynamicPool/Invariant.antt =====
-- DynamicThreadPool: what holds in every state that can be reached.
use database_concurrency_con.Prelude.{ℕ, ◌<◌, ◌≤◌, ◌≡◌, ◌≢◌, ◌⊎◌, true, some}
use database_concurrency_con.Places.{Lists}
use database_concurrency_con.ThreadPool.DynamicPool.{
  signalling, deciding, in_thread, in_call, uncreated, idle, reserved, loaded, untaken, over,
  at_thread, System,
}
use database_concurrency_con.ThreadPool.DynamicPool.Views.{
  slot, reserving, is_early, locked_by, is_locking, is_drowsy, fits, pending,
}

-- The call `t` is to signal the thread `i`.
abbrev pub Signals : System → ℕ → ℕ → Type 0
Signals s t i = (s.call t ≡ signalling i) ⊎ (s.call t ≡ deciding i)

-- What holds in every state that can be reached.
pub record Inv (s : System) : Type 0 where
  pub available : Lists idle s.available_threads s.use_of
  pub unmade_from : (i : ℕ) → s.created ≤ i → s.use_of i ≡ uncreated
  pub made_below : (i : ℕ) → i < s.created → s.use_of i ≢ uncreated
  pub slots : (i : ℕ) → s.task i ≡ slot (s.use_of i)
  pub has_thread : (t i : ℕ) → reserving (s.call t) ≡ some i → s.use_of i ≡ reserved t
  pub stages : (i : ℕ) → fits (s.stage i) (s.use_of i) ≡ true
  pub thread_locks : (i : ℕ) → is_locking (s.stage i) ≡ true → s.mutex i ≡ some in_thread
  pub thread_locked : (i : ℕ) → s.mutex i ≡ some in_thread → is_locking (s.stage i) ≡ true
  pub call_locks : (t i : ℕ) → locked_by (s.call t) ≡ some i → s.mutex i ≡ some (in_call t)
  pub call_locked : (t i : ℕ) → s.mutex i ≡ some (in_call t) → locked_by (s.call t) ≡ some i
  pub wakers : (i t : ℕ) → is_drowsy (s.stage i) ≡ true → s.use_of i ≡ loaded t → Signals s t i
  pub run_all : Lists over s.ran s.fate
  pub early : (t : ℕ) → is_early (s.call t) ≡ true → s.fate t ≡ untaken
  pub late : (t : ℕ) → s.fate t ≡ untaken → is_early (s.call t) ≡ true
  pub pending_at : (i t : ℕ) → pending (s.stage i) (s.use_of i) ≡ some t → s.fate t ≡ at_thread i
  pub at_pending : (i t : ℕ) → s.fate t ≡ at_thread i → pending (s.stage i) (s.use_of i) ≡ some t
