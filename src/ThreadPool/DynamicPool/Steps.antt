-- ===== src/ThreadPool/DynamicPool/Steps.antt =====
-- DynamicThreadPool: every step keeps the invariant.
use database_concurrency_con.Prelude.{
  ℕ, ◌+◌, ◌<◌, ◌≡◌, ◌≢◌, ◌⊎◌, refl, ap, sym, ◌∙◌, true, List, [], ◌∷◌, Option, none, some, update,
  update_same, arith, Bool-cases, inl, inr, ◌==◌, ==→≡, ==_self,
}
use database_concurrency_con.Atomic.Queue.{pop}
use database_concurrency_con.ThreadPool.DynamicPool.{
  Call, returned, asserting, setting, signalling, deciding, unlocking_call, Stage, testing, dozing,
  asleep, woken, unlocking, running, signalled, Holder, in_thread, in_call, reserved, loaded,
  System, stays, calls, Works, locks, sees_none, sees_task, sleeps, locks_again, unlocks, executes,
  resets, returns, Calls, takes, creates, counts, passes, fails, assigns, locks_too, signals, skips,
  unlocks_too, Step, works, acts, wakes, Reach, here, next,
}
use database_concurrency_con.ThreadPool.DynamicPool.Views.{
  reserving, is_early, locked_by, is_locking, is_drowsy, fits, pending, slot-loaded, present,
  drowsy_after, signalled_same,
}
use database_concurrency_con.ThreadPool.DynamicPool.Invariant.{Inv, Signals}
use database_concurrency_con.ThreadPool.DynamicPool.ThreadSteps.{
  holds-stays-Inv, runs-Inv, clears-Inv, pushes-Inv,
}
use database_concurrency_con.ThreadPool.DynamicPool.CallSteps.{holds-calls-Inv, sets-Inv}
use database_concurrency_con.ThreadPool.DynamicPool.Takings.{pops-Inv, makes-Inv}

-- A thread goes on, and its mutex stays as it is.
stays-Inv :
    (i : ℕ) (p : Stage) (s : System)
    → Inv s
    → fits p (s.use_of i) ≡ true
    → pending p (s.use_of i) ≡ pending (s.stage i) (s.use_of i)
    → is_locking p ≡ is_locking (s.stage i)
    → ((t : ℕ) → is_drowsy p ≡ true → s.use_of i ≡ loaded t → Signals s t i)
    → Inv (stays i p s)
stays-Inv i p s inv fit same locked waker = rw (update_same s.mutex i) at (
    holds-stays-Inv i p s inv (s.mutex i) fit same (λ l. inv.thread_locks i (sym locked ∙ l))
      (λ l. locked ∙ inv.thread_locked i l) (λ t l. l) (λ t l. l) waker)

pub used : (i t : ℕ) (s : System) → Inv s → s.task i ≡ some t → s.use_of i ≡ loaded t
used i t s inv e = slot-loaded (s.use_of i) t (sym (inv.slots i) ∙ e)

Works-keeps : {i : ℕ} {s s' : System} → i < s.created → Works i s s' → Inv s → Inv s'
Works-keeps {i} {s} lt (locks e free) inv =
    holds-stays-Inv i testing s inv (some in_thread)
      (present (s.use_of i) (inv.made_below i lt) (rw e at (inv.stages i))) (rw e refl) (λ l. refl)
      (λ l. refl) (λ t l. ground (arith, l)) (λ t l. ground (arith, l, free))
      (λ t l. ground (arith, l))
Works-keeps {i} {s} lt (sees_none e empty) inv =
    stays-Inv i dozing s inv (rw e at (inv.stages i)) (rw e refl) (rw e refl)
      (λ t l u. ground (arith, inv.slots i, u, empty))
Works-keeps {i} {s} lt (sees_task t e full) inv =
    let u = used i t s inv full in
    stays-Inv i unlocking s inv (rw u refl) (rw e refl) (rw e refl) (λ a l. ground (arith, l))
Works-keeps {i} {s} lt (sleeps e) inv =
    holds-stays-Inv i asleep s inv none (rw e at (inv.stages i)) (rw e refl)
      (λ l. ground (arith, l)) (λ l. ground (arith, l)) (λ t l. ground (arith, l))
      (λ t l. ground (arith, l, inv.thread_locks i (rw e refl)))
      (λ t l u. inv.wakers i t (rw e refl) u)
Works-keeps {i} {s} lt (locks_again e free) inv =
    holds-stays-Inv i testing s inv (some in_thread) (rw e at (inv.stages i)) (rw e refl)
      (λ l. refl) (λ l. refl) (λ t l. ground (arith, l)) (λ t l. ground (arith, l, free))
      (λ t l. ground (arith, l))
Works-keeps {i} {s} lt (unlocks e) inv =
    holds-stays-Inv i running s inv none (rw e at (inv.stages i)) (rw e refl)
      (λ l. ground (arith, l)) (λ l. ground (arith, l)) (λ t l. ground (arith, l))
      (λ t l. ground (arith, l, inv.thread_locks i (rw e refl))) (λ t l. ground (arith, l))
Works-keeps {i} {s} lt (executes t e full) inv = runs-Inv i s inv t e (used i t s inv full)
Works-keeps {i} {s} lt (resets e) inv = clears-Inv i s inv e
Works-keeps {i} {s} lt (returns e) inv = pushes-Inv i s inv e

same_at : (f : ℕ → Option Holder) (i j : ℕ) → update f i (f i) j ≡ f j
same_at f i j = ap (λ (g : ℕ → Option Holder). g j) (update_same f i)

-- A call goes on, and the mutexes stay as they are.
calls-Inv :
    (t : ℕ) (c : Call) (s : System)
    → Inv s
    → ((j : ℕ) → reserving c ≡ some j → s.use_of j ≡ reserved t)
    → is_early c ≡ is_early (s.call t)
    → locked_by c ≡ locked_by (s.call t)
    → ((j : ℕ)
        → is_drowsy (s.stage j) ≡ true
        → s.use_of j ≡ loaded t
        → (c ≡ signalling j) ⊎ (c ≡ deciding j))
    → Inv (calls t c s)
calls-Inv t c s inv reserve same locked waker = rw (update_same s.mutex 0) at (
    holds-calls-Inv t 0 c s inv (s.mutex 0) reserve same (λ l. l) (λ l. l) (λ a n l. l) (λ a n l. l)
      (λ j l. same_at s.mutex 0 j ∙ inv.call_locks t j (sym locked ∙ l))
      (λ j l. locked ∙ inv.call_locked t j (sym (same_at s.mutex 0 j) ∙ l)) waker)

counted : (n : ℕ) (s : System) → Inv s → Inv (record s { thread_count = n })
counted n s inv = record {
  available = inv.available;
  unmade_from = inv.unmade_from;
  made_below = inv.made_below;
  slots = inv.slots;
  has_thread = inv.has_thread;
  stages = inv.stages;
  thread_locks = inv.thread_locks;
  thread_locked = inv.thread_locked;
  call_locks = inv.call_locks;
  call_locked = inv.call_locked;
  wakers = inv.wakers;
  run_all = inv.run_all;
  early = inv.early;
  late = inv.late;
  pending_at = inv.pending_at;
  at_pending = inv.at_pending;
}

popped : (q q' : List ℕ) (i : ℕ) → pop q ≡ (some i, q') → q ≡ i ∷ q'
unfolding pop
popped [] q' i e = ground (arith, e)
popped (j ∷ q) q' i e = ground (arith, e)

-- A call that is not to signal has given no task to a thread that sleeps.
none_asleep :
    (t j : ℕ) (s : System) (c : Call)
    → Inv s
    → s.call t ≡ c
    → ((i : ℕ) → c ≢ signalling i)
    → ((i : ℕ) → c ≢ deciding i)
    → is_drowsy (s.stage j) ≡ true
    → s.use_of j ≢ loaded t
none_asleep t j s c inv e n n' l u = elim (inv.wakers j t l u) [
  | inl h ↦ n j (sym e ∙ h)
  | inr h ↦ n' j (sym e ∙ h)
]

signals-Inv :
    (t i : ℕ) (s : System)
    → Inv s
    → s.call t ≡ deciding i
    → Inv (stays i (signalled (s.stage i)) (calls t (unlocking_call i) s))
signals-Inv t i s inv e =
    let p = signalled (s.stage i) in
    let same = signalled_same (s.stage i) (s.use_of i) in
    let inv' =
      stays-Inv i p s inv (same.0 ∙ inv.stages i) same.1 same.2
        (λ a l u. inv.wakers i a (rw (drowsy_after (s.stage i) l) refl) u) in
    calls-Inv t (unlocking_call i) (stays i p s) inv' (λ j r. ground (arith, r)) (rw e refl)
      (rw e refl)
      (λ j l u. elim (Bool-cases (i == j)) [
        | inl h ↦
            let dozes = drowsy_after (s.stage i) (rw h at l) in
            ground (arith, inv.thread_locks i (rw dozes refl), inv.call_locks t i (rw e refl))
        | inr h ↦ elim (inv.wakers j t (rw h at l) u) [
          | inl w ↦ ground (arith, w, e)
          | inr w ↦ ground (arith, w, e, h, ==_self i)
        ]
      ])

Calls-keeps : {t : ℕ} {s s' : System} → Calls t s s' → Inv s → Inv s'
Calls-keeps {t} {s} (takes i q e front) inv = pops-Inv t i q s inv e (popped _ q i front)
Calls-keeps {t} {s} (creates q e front) inv = makes-Inv t s inv e
Calls-keeps {t} {s} (counts i e) inv = counted (s.thread_count + 1) _ (
    calls-Inv t (asserting i) s inv (λ j r. inv.has_thread t j (rw e r)) (rw e refl) (rw e refl)
      (λ j l u.
        absurd
          (none_asleep t j s _ inv e (λ a h. ground (arith, h)) (λ a h. ground (arith, h)) l u)))
Calls-keeps {t} {s} (passes i e empty) inv =
    calls-Inv t (setting i) s inv (λ j r. inv.has_thread t j (rw e r)) (rw e refl) (rw e refl)
      (λ j l u.
        absurd
          (none_asleep t j s _ inv e (λ a h. ground (arith, h)) (λ a h. ground (arith, h)) l u))
Calls-keeps {t} {s} (fails i j e full) inv =
    ground (arith, used i j s inv full, inv.has_thread t i (rw e refl))
Calls-keeps {t} {s} (assigns i e) inv = sets-Inv t i s inv e
Calls-keeps {t} {s} (locks_too i e free) inv =
    holds-calls-Inv t i (deciding i) s inv (some (in_call t)) (λ j r. ground (arith, r)) (rw e refl)
      (λ l. ground (arith, l)) (λ l. ground (arith, l, free))
      (λ a n l. ground (arith, l, n, ==_self t)) (λ a n l. ground (arith, l, free))
      (λ j l. ground (arith, l, ==_self i))
      (λ j l. elim (Bool-cases (i == j)) [
        | inl h ↦ rw (==→≡ i j h) refl
        | inr h ↦ ground (arith, inv.call_locked t j (rw h at l), e)
      ])
      (λ j l u. elim (inv.wakers j t l u) [
        | inl h ↦ ground (arith, h, e)
        | inr h ↦ ground (arith, h, e)
      ])
Calls-keeps {t} {s} (signals i j e full) inv = signals-Inv t i s inv e
Calls-keeps {t} {s} (skips i e empty) inv =
    calls-Inv t (unlocking_call i) s inv (λ j r. ground (arith, r)) (rw e refl) (rw e refl)
      (λ j l u. elim (inv.wakers j t l u) [
        | inl h ↦ ground (arith, h, e)
        | inr h ↦ ground (arith, h, e, inv.slots i, u, empty)
      ])
Calls-keeps {t} {s} (unlocks_too i e) inv =
    let mine = inv.call_locks t i (rw e refl) in
    holds-calls-Inv t i returned s inv none (λ j r. ground (arith, r)) (rw e refl)
      (λ l. ground (arith, l)) (λ l. ground (arith, l, mine)) (λ a n l. ground (arith, l))
      (λ a n l. ground (arith, l, mine, n, ==_self t)) (λ j l. ground (arith, l))
      (λ j l. elim (Bool-cases (i == j)) [
        | inl h ↦ ground (arith, rw h at l)
        | inr h ↦ ground (arith, inv.call_locked t j (rw h at l), e, h, ==_self i)
      ])
      (λ j l u.
        absurd
          (none_asleep t j s _ inv e (λ a h. ground (arith, h)) (λ a h. ground (arith, h)) l u))

pub Step-keeps : {s s' : System} → Step s s' → Inv s → Inv s'
Step-keeps (works i lt w) inv = Works-keeps lt w inv
Step-keeps (acts t c) inv = Calls-keeps c inv
Step-keeps {s} (wakes i e) inv =
    stays-Inv i woken s inv (rw e at (inv.stages i)) (rw e refl) (rw e refl)
      (λ t l. ground (arith, l))

pub reach-Inv : {s : System} → Reach s → Inv s
reach-Inv here = record {
  available = ((tt, λ j e. ground (arith, e)), λ j e. ground (arith, e));
  unmade_from = λ i lt. refl;
  made_below = λ i lt. ground (arith, lt);
  slots = λ i. refl;
  has_thread = λ t i e. ground (arith, e);
  stages = λ i. refl;
  thread_locks = λ i e. ground (arith, e);
  thread_locked = λ i e. ground (arith, e);
  call_locks = λ t i e. ground (arith, e);
  call_locked = λ t i e. ground (arith, e);
  wakers = λ i t e. ground (arith, e);
  run_all = ((tt, λ j e. ground (arith, e)), λ j e. ground (arith, e));
  early = λ t e. refl;
  late = λ t e. refl;
  pending_at = λ i t e. ground (arith, e);
  at_pending = λ i t e. ground (arith, e);
}
reach-Inv (next r step) = Step-keeps step (reach-Inv r)
