-- ===== src/ThreadPool/Joins.antt =====
-- StaticThreadPool with all its threads: the threads of a stopped pool end.
use database_concurrency_con.Prelude.{
  ℕ, ◌+◌, ◌*◌, ◌<◌, ◌≤◌, ◌≡◌, ◌≢◌, ◌⊎◌, refl, true, false, [], length, arith, Bool-cases,
  List-cases, inl, inr, ◌==◌, ==_self,
}
use database_concurrency_con.Atomic.Queue.{pop_non_blocking, pop}
use database_concurrency_con.ThreadPool.System.{
  Worker, looping, checking, draining, ended, running, finishing, System, Works, pops, sleeps, runs,
  rounds, leaves, drains, finishes, ends,
}
use database_concurrency_con.ThreadPool.Preservation.{popped, popped_last}

abbrev weight : Worker → ℕ
weight looping = 6
weight (running t) = 5
weight checking = 4
weight (finishing t) = 2
weight draining = 1
weight ended = 0

weight_bound : (w : Worker) → weight w ≤ 6
weight_bound looping = ground arith
weight_bound (running t) = ground arith
weight_bound checking = ground arith
weight_bound (finishing t) = ground arith
weight_bound draining = ground arith
weight_bound ended = ground arith

-- A bound on the steps that the thread `i` makes until it ends.
abbrev pub steps_left : ℕ → System → ℕ
steps_left i s = 3 * length (s.queues i) + weight (s.workers i)

-- A thread that has not ended can make a step.
can_work :
    (i : ℕ) (s : System) (w : Worker)
    → s.workers i ≡ w
    → (w ≡ ended) ⊎ ((s' : System) × Works i s s')
unfolding pop pop_non_blocking
can_work i s looping e = inr (_, sleeps false (s.queues i) e (ground arith))
can_work i s (running t) e = inr (_, runs t e)
can_work i s checking e = elim (Bool-cases s.stopped) [
  | inl off ↦ inr (_, leaves e off)
  | inr on ↦ inr (_, rounds e on)
]
can_work i s (finishing t) e = inr (_, finishes t e)
can_work i s draining e = elim (List-cases (s.queues i)) [
  | inl none_left ↦ inr (_, ends [] e (rw none_left refl))
  | inr (t, q, front) ↦ inr (_, drains t q e (rw front refl))
]
can_work i s ended e = inl refl

Works-less :
    {i : ℕ} {s s' : System} → s.stopped ≡ true → Works i s s' → steps_left i s' < steps_left i s
Works-less {i} {s} off (pops is_free t q e took) =
    rw (e, ==_self i, popped is_free (s.queues i) q t took) (ground arith)
Works-less {i} {s} off (sleeps is_free q e took) = rw (e, ==_self i) (ground arith)
Works-less {i} {s} off (runs t e) = rw (e, ==_self i) (ground arith)
Works-less {i} {s} off (rounds e on) = ground (arith, off, on)
Works-less {i} {s} off (leaves e off') = rw (e, ==_self i) (ground arith)
Works-less {i} {s} off (drains t q e took) =
    rw (e, ==_self i, popped_last (s.queues i) q t took) (ground arith)
Works-less {i} {s} off (finishes t e) = rw (e, ==_self i) (ground arith)
Works-less {i} {s} off (ends q e took) = rw (e, ==_self i) (ground arith)

Works-others :
    (i : ℕ) {j : ℕ} {s s' : System}
    → (j == i) ≡ false
    → Works j s s'
    → steps_left i s' ≡ steps_left i s
Works-others i apart (pops is_free t q e took) = rw apart refl
Works-others i apart (sleeps is_free q e took) = rw apart refl
Works-others i apart (runs t e) = rw apart refl
Works-others i apart (rounds e on) = rw apart refl
Works-others i apart (leaves e off) = rw apart refl
Works-others i apart (drains t q e took) = rw apart refl
Works-others i apart (finishes t e) = rw apart refl
Works-others i apart (ends q e took) = rw apart refl

-- When a pool is stopped, its threads end: each one that has not ended can make a step, and its steps
-- are bounded by three for each task in its queue and six more, since each of them lowers what is
-- left of the bound, and the steps of the other threads do not change it.
pub static_pool-joins :
    (i : ℕ) (s : System)
    → s.stopped ≡ true
    → (s.workers i ≢ ended → (s' : System) × Works i s s')
      × ((s' : System) → Works i s s' → steps_left i s' < steps_left i s)
      × ((j : ℕ) (s' : System) → (j == i) ≡ false → Works j s s' → steps_left i s' ≡ steps_left i s)
      × (steps_left i s ≤ 3 * length (s.queues i) + 6)
static_pool-joins i s off = (
  λ on. elim (can_work i s (s.workers i) refl) [ inl e ↦ absurd (on e) | inr step ↦ step ],
  λ s' w. Works-less off w,
  λ j s' apart w. Works-others i apart w,
  ground (arith, weight_bound (s.workers i)),
)
