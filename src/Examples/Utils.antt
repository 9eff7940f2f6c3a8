-- ===== src/Examples/Utils.antt =====
-- The containers of utils/atomic.h and the thread pool of utils/static_thread_pool.h.
use database_concurrency_con.Prelude.{ℕ, ◌≡◌, true, false, List, [], ◌∷◌, ◌++◌, update}
use database_concurrency_con.Atomic.Fifo.{
  Call, pushes, pops, tries_push, tries_pop, run, pushed, run-pushed,
}
use database_concurrency_con.ThreadPool.{Pool, new_pool, Attempt}

abbrev calls : List (Call ℕ)
calls = pushes 5 ∷ tries_push false 6 ∷ pops ∷ tries_pop true ∷ pops ∷ pushes 7 ∷ []

run-pushed_example : (run calls (4 ∷ [])).0 ++ (run calls (4 ∷ [])).1 ≡ 4 ∷ pushed calls
run-pushed_example = run-pushed calls (4 ∷ [])

abbrev bound : List (ℕ × ℕ)
bound = (1, 10) ∷ (3, 30) ∷ []

abbrev busy : Pool
busy = record (new_pool 2) { queues = update (λ _. []) 1 (8 ∷ 9 ∷ []) }

abbrev attempts : List Attempt
attempts = record { draw = 4; is_free = false } ∷ record { draw = 3; is_free = true } ∷ []
