-- ===== src/Examples/Condition.antt =====
-- A run of a pool that makes its threads when they are wanted: the first thread sleeps when its task
-- comes.
use database_concurrency_con.Prelude.{
  ℕ, ◌≡◌, ◌≢◌, ◌⊎◌, refl, true, false, [], some, none, inr, contains, Distinct, arith,
}
use database_concurrency_con.Atomic.Queue.{pop}
use database_concurrency_con.ThreadPool.DynamicPool.{
  asserting, setting, signalling, deciding, failed, testing, dozing, asleep, in_thread, System,
  start_state, stays, calls, holds, makes, sets, locks, sees_none, sleeps, creates, counts, passes,
  assigns, works, acts, Reach, here, next,
}
use database_concurrency_con.ThreadPool.DynamicPool.Views.{is_early}
use database_concurrency_con.ThreadPool.DynamicPool.Wakeups.{
  dynamic_pool-asserts, dynamic_pool-wakes, dynamic_pool-runs_once,
}
use database_concurrency_con.ThreadPool.DynamicPool.Progress.{Moves, dynamic_pool-no_deadlock}

abbrev s₁ : System
s₁ = makes 7 start_state

abbrev s₂ : System
s₂ = record (calls 7 (asserting 0) s₁) { thread_count = 1 }

abbrev s₃ : System
s₃ = holds 0 (some in_thread) (stays 0 testing s₂)

abbrev s₄ : System
s₄ = holds 0 none (stays 0 asleep (stays 0 dozing s₃))

abbrev s₅ : System
s₅ = sets 7 0 (calls 7 (setting 0) s₄)

reached : Reach s₂
unfolding pop
reached = next (next here (acts 7 (creates [] refl refl))) (acts 7 (counts 0 refl))

has_task : Reach s₅
has_task =
    let s₄-reached : Reach s₄ =
      next
        (next (next reached (works 0 (omega arith) (locks refl refl)))
          (works 0 (omega arith) (sees_none refl refl)))
        (works 0 (omega arith) (sleeps refl)) in
    next (next s₄-reached (acts 7 (passes 0 refl refl))) (acts 7 (assigns 0 refl))

dynamic_pool-asserts_example :
    (s₂.call 7 ≢ failed) × ((i : ℕ) → s₂.call 7 ≡ asserting i → s₂.task i ≡ none)
dynamic_pool-asserts_example = dynamic_pool-asserts reached 7

dynamic_pool-wakes_example : (s₅.call 7 ≡ signalling 0) ⊎ (s₅.call 7 ≡ deciding 0)
dynamic_pool-wakes_example = dynamic_pool-wakes has_task 0 7 (inr refl) refl

dynamic_pool-runs_once_example :
    Distinct s₅.ran × ((t : ℕ) → contains t s₅.ran ≡ true → is_early (s₅.call t) ≡ false)
dynamic_pool-runs_once_example = dynamic_pool-runs_once has_task

dynamic_pool-no_deadlock_example : Moves s₅
dynamic_pool-no_deadlock_example = dynamic_pool-no_deadlock has_task 7 (λ e. ground (arith, e)) refl
