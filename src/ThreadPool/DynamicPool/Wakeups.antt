-- ===== src/ThreadPool/DynamicPool/Wakeups.antt =====
-- DynamicThreadPool: the assertion never fails, no wake-up is lost, and no task runs twice.
use database_concurrency_con.Prelude.{
  ℕ, ◌≡◌, ◌≢◌, ◌⊎◌, refl, ◌∙◌, true, false, none, some, update, arith, Bool-cases, inl, inr, ◌==◌,
  contains, Distinct,
}
use database_concurrency_con.ThreadPool.DynamicPool.{
  Call, failed, asserting, signalling, deciding, dozing, asleep, System, Works, locks, sees_none,
  sees_task, sleeps, locks_again, unlocks, executes, resets, returns, Calls, takes, creates, counts,
  passes, fails, assigns, locks_too, signals, skips, unlocks_too, works, acts, wakes, Reach, here,
  next,
}
use database_concurrency_con.ThreadPool.DynamicPool.Views.{is_early}
use database_concurrency_con.ThreadPool.DynamicPool.Invariant.{Inv}
use database_concurrency_con.ThreadPool.DynamicPool.Steps.{reach-Inv, used}

-- No assertion of a call has failed.
IsSound : System → Type 0
IsSound s = (a : ℕ) → s.call a ≢ failed

update-IsSound :
    (t : ℕ) (c : Call) (s : System)
    → IsSound s
    → c ≢ failed
    → (a : ℕ) → update s.call t c a ≢ failed
unfolding IsSound
update-IsSound t c s sound fine a e = elim (Bool-cases (t == a)) [
  | inl h ↦ fine (rw h at e)
  | inr h ↦ sound a (rw h at e)
]

Works-IsSound : {i : ℕ} {s s' : System} → Works i s s' → IsSound s → IsSound s'
unfolding IsSound
Works-IsSound (locks e free) sound = sound
Works-IsSound (sees_none e empty) sound = sound
Works-IsSound (sees_task t e full) sound = sound
Works-IsSound (sleeps e) sound = sound
Works-IsSound (locks_again e free) sound = sound
Works-IsSound (unlocks e) sound = sound
Works-IsSound (executes t e full) sound = sound
Works-IsSound (resets e) sound = sound
Works-IsSound (returns e) sound = sound

Calls-IsSound : {t : ℕ} {s s' : System} → Inv s → Calls t s s' → IsSound s → IsSound s'
unfolding IsSound
Calls-IsSound {t} {s} inv (takes i q e front) sound =
    update-IsSound t _ s sound (λ e'. ground (arith, e'))
Calls-IsSound {t} {s} inv (creates q e front) sound =
    update-IsSound t _ s sound (λ e'. ground (arith, e'))
Calls-IsSound {t} {s} inv (counts i e) sound = update-IsSound t _ s sound (λ e'. ground (arith, e'))
Calls-IsSound {t} {s} inv (passes i e empty) sound =
    update-IsSound t _ s sound (λ e'. ground (arith, e'))
Calls-IsSound {t} {s} inv (fails i j e full) sound =
    ground (arith, used i j s inv full, inv.has_thread t i (rw e refl))
Calls-IsSound {t} {s} inv (assigns i e) sound =
    update-IsSound t _ s sound (λ e'. ground (arith, e'))
Calls-IsSound {t} {s} inv (locks_too i e free) sound =
    update-IsSound t _ s sound (λ e'. ground (arith, e'))
Calls-IsSound {t} {s} inv (signals i j e full) sound =
    update-IsSound t _ s sound (λ e'. ground (arith, e'))
Calls-IsSound {t} {s} inv (skips i e empty) sound =
    update-IsSound t _ s sound (λ e'. ground (arith, e'))
Calls-IsSound {t} {s} inv (unlocks_too i e) sound =
    update-IsSound t _ s sound (λ e'. ground (arith, e'))

reach-IsSound : {s : System} → Reach s → IsSound s
unfolding IsSound
reach-IsSound here = λ a e. ground (arith, e)
reach-IsSound (next r (works i lt w)) = Works-IsSound w (reach-IsSound r)
reach-IsSound (next r (acts t c)) = Calls-IsSound (reach-Inv r) c (reach-IsSound r)
reach-IsSound (next r (wakes i e)) = reach-IsSound r

-- Whatever the threads and the calls do and in whatever order, the assertion of Thread::RunTask never
-- fails: a call that has a thread finds no task there.
pub dynamic_pool-asserts :
    {s : System}
    → Reach s
    → (t : ℕ) → (s.call t ≢ failed) × ((i : ℕ) → s.call t ≡ asserting i → s.task i ≡ none)
unfolding IsSound
dynamic_pool-asserts r t =
    let inv = reach-Inv r in
    (reach-IsSound r t, λ i e. inv.slots i ∙ rw (inv.has_thread t i (rw e refl)) refl)

-- Whatever the threads and the calls do and in whatever order, no wake-up is lost: when a thread sleeps, or has found no task and is about to, and has a task, then
-- the call that has set it is yet to signal.
pub dynamic_pool-wakes :
    {s : System}
    → Reach s
    → (i t : ℕ) → (s.stage i ≡ dozing) ⊎ (s.stage i ≡ asleep)
    → s.task i ≡ some t
    → (s.call t ≡ signalling i) ⊎ (s.call t ≡ deciding i)
dynamic_pool-wakes {s} r i t (inl e) full =
    (reach-Inv r).wakers i t (rw e refl) (used i t s (reach-Inv r) full)
dynamic_pool-wakes {s} r i t (inr e) full =
    (reach-Inv r).wakers i t (rw e refl) (used i t s (reach-Inv r) full)

-- Whatever the threads and the calls do and in whatever order, no task has run twice, and one that has
-- run was given to a thread by its call of RunTask before.
pub dynamic_pool-runs_once :
    {s : System}
    → Reach s
    → Distinct s.ran × ((t : ℕ) → contains t s.ran ≡ true → is_early (s.call t) ≡ false)
dynamic_pool-runs_once {s} r =
    let inv = reach-Inv r in
    (
      inv.run_all.0.0,
      λ t e. elim (Bool-cases (is_early (s.call t))) [
        | inl h ↦ ground (arith, inv.early t h, inv.run_all.0.1 t e)
        | inr h ↦ h
      ],
    )
