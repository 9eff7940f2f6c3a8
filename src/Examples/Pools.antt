-- ===== src/Examples/Pools.antt =====
-- A run of a pool of two threads, from its constructor to its destructor.
use database_concurrency_con.Prelude.{
  ℕ, ◌+◌, ◌*◌, ◌<◌, ◌≤◌, ◌≡◌, ◌≢◌, refl, true, false, [], length, contains, Distinct, ◌==◌, update,
  arith,
}
use database_concurrency_con.Atomic.Queue.{push_non_blocking, pop_non_blocking, pop}
use database_concurrency_con.ThreadPool.{Attempt, active, stop}
use database_concurrency_con.ThreadPool.System.{
  fresh, given, done, checking, draining, ended, running, System, start_state, takes, has_run, goes,
  tried, Works, pops, sleeps, runs, leaves, ends, calls, tries, stops, works, Reach, here, next,
}
use database_concurrency_con.ThreadPool.Conservation.{static_pool-runs_once, static_pool-runs_all}
use database_concurrency_con.ThreadPool.Joins.{steps_left, static_pool-joins}

-- `rand()` gives 3, and the mutex of the queue is free.
abbrev a : Attempt
a = record { draw = 3; is_free = true }

abbrev s₁ : System
s₁ = record (start_state 2) { place = update (λ _. fresh) 7 given }

abbrev s₂ : System
s₂ = tried 7 a s₁

abbrev s₃ : System
s₃ = takes 1 7 [] (running 7) s₂

abbrev s₄ : System
s₄ = has_run 1 7 checking s₃

abbrev s₅ : System
s₅ = goes 0 checking s₄

abbrev s₆ : System
s₆ = record s₅ { pool = stop s₅.pool }

abbrev s₇ : System
s₇ = goes 0 draining (goes 1 draining s₆)

abbrev s₈ : System
s₈ = goes 1 ended (goes 0 ended s₇)

has_run_task : Reach (start_state 2) s₆
unfolding push_non_blocking pop_non_blocking pop stop active
has_run_task =
    let s₃-reached : Reach (start_state 2) s₃ =
      next (next (next here (calls 7 refl refl)) (tries 7 a refl))
        (works 1 (omega arith) (pops true 7 [] refl refl)) in
    next
      (next (next s₃-reached (works 1 (omega arith) (runs 7 refl)))
        (works 0 (omega arith) (sleeps true [] refl refl)))
      (stops (λ t e. ground (arith, e)))

all_ended : Reach (start_state 2) s₈
unfolding push_non_blocking pop stop
all_ended =
    next
      (next
        (next (next has_run_task (works 1 (omega arith) (leaves refl refl)))
          (works 0 (omega arith) (leaves refl refl)))
        (works 0 (omega arith) (ends [] refl refl)))
      (works 1 (omega arith) (ends [] refl refl))

static_pool-runs_once_example :
    Distinct s₈.ran
    × ((i : ℕ) → Distinct (s₈.queues i))
    × ((t : ℕ)
        → contains t s₈.ran ≡ true
        → ((i : ℕ) → contains t (s₈.queues i) ≡ false) × (s₈.place t ≡ done))
static_pool-runs_once_example = static_pool-runs_once (omega arith) all_ended

static_pool-runs_all_example :
    Distinct s₈.ran × ((t : ℕ) → s₈.place t ≢ fresh → contains t s₈.ran ≡ true)
static_pool-runs_all_example =
    static_pool-runs_all (omega arith) all_ended (λ i lt. ground (arith, lt))

static_pool-joins_example :
    (s₆.workers 1 ≢ ended → (s' : System) × Works 1 s₆ s')
    × ((s' : System) → Works 1 s₆ s' → steps_left 1 s' < steps_left 1 s₆)
    × ((j : ℕ) (s' : System) → (j == 1) ≡ false → Works j s₆ s' → steps_left 1 s' ≡ steps_left 1 s₆)
    × (steps_left 1 s₆ ≤ 3 * length (s₆.queues 1) + 6)
unfolding stop
static_pool-joins_example = static_pool-joins 1 s₆ refl
