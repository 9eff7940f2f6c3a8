-- ===== src/ThreadPool/System.antt =====
-- utils/static_thread_pool.h: the threads of the pool and those that call it, each of which takes its
-- next step at any time.
use database_concurrency_con.Prelude.{
  ℕ, ◌%◌, ◌<◌, ◌≡◌, ◌≢◌, Bool, true, false, List, [], ◌∷◌, ◌++◌, none, some, update, if◌then◌else◌,
}
use database_concurrency_con.Atomic.Queue.{push_non_blocking, pop_non_blocking, pop}
use database_concurrency_con.ThreadPool.{Pool, new_pool, Attempt, active, stop}

-- Where a task is: with a client, in a call of `RunTask` that has passed the assertion, in a queue,
-- with a thread that runs it, or run.
pub data Place : Type 0 where
  fresh given done : Place
  queued taken : ℕ → Place

-- Where a thread is in `RunThread`: at the start of a round, at a task that it runs, before the test of
-- `stopped_`, in the last loop, at a task that it runs there, or at the end.
pub data Worker : Type 0 where
  looping checking draining ended : Worker
  running finishing : ℕ → Worker

pub record System : Type 0 where
  pub pool : Pool
  pub open pool use *
  pub place : ℕ → Place
  pub workers : ℕ → Worker

-- A pool whose constructor has ended.
abbrev pub start_state : ℕ → System
start_state n = record { pool = new_pool n; place = λ _. fresh; workers = λ _. looping }

-- The thread `i` takes the task `t` out of its queue, of which `q` is left.
abbrev pub takes : ℕ → ℕ → List ℕ → Worker → System → System
takes i t q w s = record {
  pool = record s.pool { queues = update s.queues i q };
  place = update s.place t (taken i);
  workers = update s.workers i w;
}

-- The thread `i` has run the task `t`.
abbrev pub has_run : ℕ → ℕ → Worker → System → System
has_run i t w s = record {
  pool = record s.pool { ran = s.ran ++ t ∷ [] };
  place = update s.place t done;
  workers = update s.workers i w;
}

-- The thread `i` goes on.
abbrev pub goes : ℕ → Worker → System → System
goes i w s = record s { workers = update s.workers i w }

-- A round of the loop of `RunTask`.
abbrev pub tried : ℕ → Attempt → System → System
tried t a s =
    let i = a.draw % s.thread_count in
    let (ok, q) = push_non_blocking a.is_free t (s.queues i) in
    record s {
      pool = record s.pool { queues = update s.queues i q };
      place = if ok then update s.place t (queued i) else s.place;
    }

-- A step of a thread of the pool.
pub data Works (i : ℕ) (s : System) : System → Type 0 where
  pops :
      (is_free : Bool) (t : ℕ) (q : List ℕ)
      → s.workers i ≡ looping
      → pop_non_blocking is_free (s.queues i) ≡ (some t, q)
      → Works i s (takes i t q (running t) s)
  sleeps :
      (is_free : Bool) (q : List ℕ)
      → s.workers i ≡ looping
      → pop_non_blocking is_free (s.queues i) ≡ (none, q)
      → Works i s (goes i checking s)
  runs : (t : ℕ) → s.workers i ≡ running t → Works i s (has_run i t checking s)
  rounds : s.workers i ≡ checking → s.stopped ≡ false → Works i s (goes i looping s)
  leaves : s.workers i ≡ checking → s.stopped ≡ true → Works i s (goes i draining s)
  drains :
      (t : ℕ) (q : List ℕ)
      → s.workers i ≡ draining
      → pop (s.queues i) ≡ (some t, q)
      → Works i s (takes i t q (finishing t) s)
  finishes : (t : ℕ) → s.workers i ≡ finishing t → Works i s (has_run i t draining s)
  ends :
      (q : List ℕ)
      → s.workers i ≡ draining
      → pop (s.queues i) ≡ (none, q)
      → Works i s (goes i ended s)

-- A step of a client or of a thread. Each call of `RunTask` has a task of its own, and the destructor
-- runs when no call is left.
pub data Step (s : System) : System → Type 0 where
  calls :
      (t : ℕ)
      → s.place t ≡ fresh
      → active s.pool ≡ true
      → Step s (record s { place = update s.place t given })
  tries : (t : ℕ) (a : Attempt) → s.place t ≡ given → Step s (tried t a s)
  stops : ((t : ℕ) → s.place t ≢ given) → Step s (record s { pool = stop s.pool })
  works : (i : ℕ) {s' : System} → i < s.thread_count → Works i s s' → Step s s'

pub data Reach (s₀ : System) : System → Type 0 where
  here : Reach s₀ s₀
  next : {s s' : System} → Reach s₀ s → Step s s' → Reach s₀ s'
