-- ===== src/ThreadPool.antt =====
-- utils/static_thread_pool.h: a queue of tasks for each thread. A task is a number; what it does
-- when it runs is the caller's.
pub mod Tasks
pub mod System
pub mod Invariant
pub mod Preservation
pub mod Conservation
pub mod Joins
pub mod DynamicPool
use database_concurrency_con.Prelude.{
  ℕ, zero, suc, ◌+◌, ◌*◌, ◌%◌, Bool, true, false, not, List, [], ◌∷◌, ◌++◌, Option, none, some,
  update, ltb, if◌then◌else◌,
}
use database_concurrency_con.Atomic.Queue.{push_non_blocking, pop_non_blocking, pop}

-- `thread_count_`, `queues_` and `stopped_`, with the tasks that have run, in order.
pub record Pool : Type 0 where
  pub thread_count : ℕ
  pub queues : ℕ → List ℕ
  pub stopped : Bool
  pub ran : List ℕ

-- The constructor. A pool has at least one thread.
abbrev pub new_pool : ℕ → Pool
new_pool n = record { thread_count = n; queues = λ _. []; stopped = false; ran = [] }

-- `StaticThreadPool::Active`
unfoldable pub active : Pool → Bool
active p = not p.stopped

-- A round of the loop of `RunTask`: what `rand()` returned, and whether TryLock got the mutex.
pub record Attempt : Type 0 where
  pub draw : ℕ
  pub is_free : Bool

-- The loop of `RunTask`, over the attempts that are made: `none` while none has succeeded.
pub push_somewhere : List Attempt → ℕ → Pool → Option Pool
push_somewhere [] task p = none
push_somewhere (a ∷ attempts) task p =
    let i = a.draw % p.thread_count in
    let rest = push_somewhere attempts task p in
    let (ok, q) = push_non_blocking a.is_free task (p.queues i) in
    if ok then some (record p { queues = update p.queues i q }) else rest

-- `StaticThreadPool::RunTask`: the assertion fails on a pool that is stopped.
pub run_task : List Attempt → ℕ → Pool → Option Pool
run_task attempts task p = if p.stopped then none else push_somewhere attempts task p

-- The sleep of a thread that found no task, in microseconds, and the next one.
pub back_off : ℕ → ℕ
back_off sleep_duration = if ltb sleep_duration 32 then sleep_duration * 2 else sleep_duration

-- What a round does with the answer of PopNonBlocking.
pub after_pop : ℕ → Option ℕ → List ℕ → ℕ → Pool → Pool × ℕ
after_pop id none q sleep_duration p = (p, back_off sleep_duration)
after_pop id (some task) q sleep_duration p =
    (record p { queues = update p.queues id q; ran = p.ran ++ task ∷ [] }, 1)

-- The first part of a round of `RunThread`: the pool, and `sleep_duration`.
pub round : ℕ → Bool → ℕ → Pool → Pool × ℕ
round id is_free sleep_duration p =
    let (task, q) = pop_non_blocking is_free (p.queues id) in after_pop id task q sleep_duration p

-- The loop of a thread that has seen `stopped_`, with fuel for its rounds.
pub drain : ℕ → ℕ → Pool → Pool
drain zero id p = p
drain (suc fuel) id p =
    let (task, q) = pop (p.queues id) in
    elim task [
      | none ↦ p
      | some t ↦ drain fuel id (record p { queues = update p.queues id q; ran = p.ran ++ t ∷ [] })
    ]

-- A round of `RunThread`; the last part says whether the loop goes on. `fuel` is for the drain.
unfoldable run_thread_round : ℕ → ℕ → Bool → ℕ → Pool → (Pool × ℕ) × Bool
run_thread_round fuel id is_free sleep_duration p =
    let (p', sleep_duration') = round id is_free sleep_duration p in
    if p'.stopped
    then ((drain fuel id p', sleep_duration'), false)
    else ((p', sleep_duration'), true)

-- What the destructor sets before it waits for the threads.
unfoldable pub stop : Pool → Pool
stop p = record p { stopped = true }
