-- ===== src/ThreadPool/DynamicPool/Progress.antt =====
-- DynamicThreadPool: there is always a step towards the run of a task.
use database_concurrency_con.Prelude.{
  ℕ, ◌<◌, ◌≡◌, ◌≢◌, ◌⊎◌, refl, ◌∙◌, true, false, none, some, arith, Bool-cases, inl, inr,
  Option-cases, contains, ltb,
}
use database_concurrency_con.ThreadPool.DynamicPool.{
  Call, unmade, returned, failed, counting, asserting, setting, signalling, deciding,
  unlocking_call, Stage, starting, testing, dozing, asleep, woken, unlocking, running, clearing,
  pushing, Holder, in_thread, in_call, uncreated, Fate, untaken, over, at_thread, System, Works,
  locks, sees_none, sees_task, sleeps, locks_again, unlocks, executes, Calls, counts, passes,
  assigns, locks_too, signals, skips, unlocks_too, Reach,
}
use database_concurrency_con.ThreadPool.DynamicPool.Views.{
  is_locking, locked_by, pending, slot-loaded, pending-slot,
}
use database_concurrency_con.ThreadPool.DynamicPool.Invariant.{Inv}
use database_concurrency_con.ThreadPool.DynamicPool.Steps.{reach-Inv}
use database_concurrency_con.ThreadPool.DynamicPool.Wakeups.{dynamic_pool-asserts}

-- A thread, or a call that has begun, can make a step.
abbrev pub Moves : System → Type 0
Moves s =
    ((i : ℕ) × (i < s.created) × (s' : System) × Works i s s')
    ⊎ ((t : ℕ) × (s.call t ≢ unmade) × (s' : System) × Calls t s s')

module _ (s : System) (inv : Inv s) where
  created_at : (i : ℕ) → s.use_of i ≢ uncreated → i < s.created
  created_at i there = elim (Bool-cases (ltb i s.created)) [
    | inl h ↦ ground (arith, h)
    | inr h ↦ absurd (there (inv.unmade_from i (ground (arith, h))))
  ]

  -- A thread that has its mutex can make a step.
  locking-Moves : (i : ℕ) (p : Stage) → s.stage i ≡ p → is_locking p ≡ true → Moves s
  locking-Moves i testing e l =
      let lt = created_at i (λ u. ground (arith, u, rw e at (inv.stages i))) in
      elim (Option-cases (s.task i)) [
        | inl empty ↦ inl (i, lt, _, sees_none e empty)
        | inr (t, full) ↦ inl (i, lt, _, sees_task t e full)
      ]
  locking-Moves i dozing e l =
      inl (i, created_at i (λ u. ground (arith, u, rw e at (inv.stages i))), _, sleeps e)
  locking-Moves i unlocking e l =
      inl (i, created_at i (λ u. ground (arith, u, rw e at (inv.stages i))), _, unlocks e)
  locking-Moves i starting e l = ground (arith, l)
  locking-Moves i asleep e l = ground (arith, l)
  locking-Moves i woken e l = ground (arith, l)
  locking-Moves i running e l = ground (arith, l)
  locking-Moves i clearing e l = ground (arith, l)
  locking-Moves i pushing e l = ground (arith, l)

  -- A call that has a mutex can make a step.
  locked-Moves : (i t : ℕ) (c : Call) → s.call t ≡ c → locked_by c ≡ some i → Moves s
  locked-Moves i t (deciding j) e l = elim (Option-cases (s.task j)) [
    | inl empty ↦ inr (t, (λ n. ground (arith, e, n)), _, skips j e empty)
    | inr (a, full) ↦ inr (t, (λ n. ground (arith, e, n)), _, signals j a e full)
  ]
  locked-Moves i t (unlocking_call j) e l = inr (t, (λ n. ground (arith, e, n)), _, unlocks_too j e)
  locked-Moves i t unmade e l = ground (arith, l)
  locked-Moves i t returned e l = ground (arith, l)
  locked-Moves i t failed e l = ground (arith, l)
  locked-Moves i t (counting j) e l = ground (arith, l)
  locked-Moves i t (asserting j) e l = ground (arith, l)
  locked-Moves i t (setting j) e l = ground (arith, l)
  locked-Moves i t (signalling j) e l = ground (arith, l)

  -- Where a mutex is not free, the one who has it can make a step.
  holder-Moves : (i : ℕ) (h : Holder) → s.mutex i ≡ some h → Moves s
  holder-Moves i in_thread e = locking-Moves i (s.stage i) refl (inv.thread_locked i e)
  holder-Moves i (in_call t) e = locked-Moves i t (s.call t) refl (inv.call_locked t i e)

  -- Someone waits for the mutex.
  free_or_held : (i : ℕ) → (s.mutex i ≡ none → Moves s) → Moves s
  free_or_held i go = elim (Option-cases (s.mutex i)) [
    | inl free ↦ go free
    | inr (h, held) ↦ holder-Moves i h held
  ]

  -- A thread that has a task which it has not run.
  pending-Moves :
      (i t : ℕ) (p : Stage)
      → s.stage i ≡ p
      → pending p (s.use_of i) ≡ some t
      → s.call t ≡ returned
      → i < s.created
      → Moves s
  pending-Moves i t starting e w ret lt = free_or_held i (λ free. inl (i, lt, _, locks e free))
  pending-Moves i t testing e w ret lt = locking-Moves i testing e refl
  pending-Moves i t dozing e w ret lt = locking-Moves i dozing e refl
  pending-Moves i t asleep e w ret lt =
      let loaded_t = slot-loaded (s.use_of i) t w in
      elim (inv.wakers i t (rw e refl) loaded_t) [
        | inl h ↦ ground (arith, h, ret)
        | inr h ↦ ground (arith, h, ret)
      ]
  pending-Moves i t woken e w ret lt = free_or_held i (λ free. inl (i, lt, _, locks_again e free))
  pending-Moves i t unlocking e w ret lt = locking-Moves i unlocking e refl
  pending-Moves i t running e w ret lt = inl (i, lt, _, executes t e (inv.slots i ∙ w))
  pending-Moves i t clearing e w ret lt = ground (arith, w)
  pending-Moves i t pushing e w ret lt = ground (arith, w)

  fate-Moves :
      (t : ℕ) (f : Fate) → s.fate t ≡ f → s.call t ≡ returned → contains t s.ran ≡ false → Moves s
  fate-Moves t untaken e ret out = ground (arith, inv.late t e, ret)
  fate-Moves t over e ret out = ground (arith, inv.run_all.1 t e, out)
  fate-Moves t (at_thread i) e ret out =
      let w = inv.at_pending i t e in
      let there : s.use_of i ≢ uncreated =
        λ u. ground (arith, w, pending-slot (s.stage i) (s.use_of i) (rw u refl)) in
      pending-Moves i t (s.stage i) refl w ret (created_at i there)

  call-Moves :
      (t : ℕ) (c : Call)
      → s.call t ≡ c
      → c ≢ unmade
      → c ≢ failed
      → contains t s.ran ≡ false
      → Moves s
  call-Moves t unmade e n n' out = absurd (n refl)
  call-Moves t failed e n n' out = absurd (n' refl)
  call-Moves t returned e n n' out = fate-Moves t (s.fate t) refl e out
  call-Moves t (counting i) e n n' out = inr (t, rw e n, _, counts i e)
  call-Moves t (asserting i) e n n' out =
      inr (t, rw e n, _, passes i e (inv.slots i ∙ rw (inv.has_thread t i (rw e refl)) refl))
  call-Moves t (setting i) e n n' out = inr (t, rw e n, _, assigns i e)
  call-Moves t (signalling i) e n n' out =
      free_or_held i (λ free. inr (t, rw e n, _, locks_too i e free))
  call-Moves t (deciding i) e n n' out = locked-Moves i t (deciding i) e refl
  call-Moves t (unlocking_call i) e n n' out = locked-Moves i t (unlocking_call i) e refl

-- Whatever the threads and the calls have done and in whatever order: as long as a task of which there
-- was a call of RunTask has not run, some thread, or a call that has begun, can make a step, without
-- a thread that wakes up by itself and without another call.
pub dynamic_pool-no_deadlock :
    {s : System} → Reach s → (t : ℕ) → s.call t ≢ unmade → contains t s.ran ≡ false → Moves s
dynamic_pool-no_deadlock {s} r t begun out =
    call-Moves s (reach-Inv r) t (s.call t) refl begun (dynamic_pool-asserts r t).0 out
