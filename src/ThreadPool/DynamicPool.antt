-- ===== src/ThreadPool/DynamicPool.antt =====
-- utils/dynamic_thread_pool.h, with the WaitWhileEq and SignalIfNonNull of utils/condition.h: the threads
-- of the pool and the calls of `RunTask`, each of which takes its next step at any time. A condition
-- variable is what pthread documents: a wait releases the mutex and sleeps in one step, a signal wakes
-- the sleeping thread, and a thread may also wake up by itself.
pub mod Views
pub mod Invariant
pub mod Takings
pub mod CallSteps
pub mod ThreadSteps
pub mod Steps
pub mod Wakeups
pub mod Progress
use database_concurrency_con.Prelude.{
  ℕ, ◌+◌, ◌<◌, ◌≡◌, Bool, true, false, List, [], ◌∷◌, ◌++◌, Option, none, some, update,
}
use database_concurrency_con.Atomic.Queue.{push, pop}

-- Where a call of `RunTask` is: not made; before `++thread_count_`, with the new thread; before the
-- assertion, the assignment to `task_`, the lock, the test and the release in the thread that it has;
-- or returned. One whose assertion has failed is `failed`.
pub data Call : Type 0 where
  unmade returned failed : Call
  counting asserting setting signalling deciding unlocking_call : ℕ → Call

-- Where a thread is in `RunThread`: before the lock in the wait, before the test, before the sleep, in
-- the sleep, woken up and before the lock again, before the release; or before the run of the task, the
-- reset of `task_`, and the push of the thread.
pub data Stage : Type 0 where
  starting testing dozing asleep woken unlocking running clearing pushing : Stage

-- Who has the mutex of a thread's condition variable.
pub data Holder : Type 0 where
  in_thread : Holder
  in_call : ℕ → Holder

-- What a thread is used for, which only the proofs look at: nothing, since it is not made yet, the call
-- that has it, the task that it has, nothing before it pushes itself, or to be available.
pub data Use : Type 0 where
  uncreated cleared idle : Use
  reserved loaded : ℕ → Use

-- Where a task is, which only the proofs look at: with its call, with a thread, or run.
pub data Fate : Type 0 where
  untaken over : Fate
  at_thread : ℕ → Fate

-- A call has the number of its task. `created` counts the threads that are made, and gives the numbers.
pub record System : Type 0 where
  pub available_threads : List ℕ
  pub thread_count : ℕ
  pub created : ℕ
  pub task : ℕ → Option ℕ
  pub mutex : ℕ → Option Holder
  pub stage : ℕ → Stage
  pub call : ℕ → Call
  pub ran : List ℕ
  pub use_of : ℕ → Use
  pub fate : ℕ → Fate

-- The constructor makes a pool with no threads.
abbrev pub start_state : System
start_state = record {
  available_threads = [];
  thread_count = 0;
  created = 0;
  task = λ _. none;
  mutex = λ _. none;
  stage = λ _. starting;
  call = λ _. unmade;
  ran = [];
  use_of = λ _. uncreated;
  fate = λ _. untaken;
}

abbrev pub stays : ℕ → Stage → System → System
stays i p s = record s { stage = update s.stage i p }

abbrev pub calls : ℕ → Call → System → System
calls t c s = record s { call = update s.call t c }

abbrev pub holds : ℕ → Option Holder → System → System
holds i h s = record s { mutex = update s.mutex i h }

-- The call has the thread in front of the queue.
abbrev pub pops : ℕ → ℕ → List ℕ → System → System
pops t i q s = record s {
  available_threads = q;
  call = update s.call t (asserting i);
  use_of = update s.use_of i (reserved t);
}

-- The call makes a thread.
abbrev pub makes : ℕ → System → System
makes t s = record s {
  created = s.created + 1;
  call = update s.call t (counting s.created);
  use_of = update s.use_of s.created (reserved t);
}

-- `task_ = task;`
abbrev pub sets : ℕ → ℕ → System → System
sets t i s = record s {
  task = update s.task i (some t);
  call = update s.call t (signalling i);
  use_of = update s.use_of i (loaded t);
  fate = update s.fate t (at_thread i);
}

-- What a signal does to a thread.
abbrev pub signalled : Stage → Stage
signalled asleep = woken
signalled starting = starting
signalled testing = testing
signalled dozing = dozing
signalled woken = woken
signalled unlocking = unlocking
signalled running = running
signalled clearing = clearing
signalled pushing = pushing

-- `task_->Run();`
abbrev pub runs : ℕ → ℕ → System → System
runs i t s = record s {
  stage = update s.stage i clearing;
  ran = s.ran ++ t ∷ [];
  fate = update s.fate t over;
}

-- `task_ = NULL;`
abbrev pub clears : ℕ → System → System
clears i s = record s {
  task = update s.task i none;
  stage = update s.stage i pushing;
  use_of = update s.use_of i cleared;
}

-- `thread_pool_->available_threads_.Push(this);`
abbrev pub pushes : ℕ → System → System
pushes i s = record s {
  available_threads = push i s.available_threads;
  stage = update s.stage i starting;
  use_of = update s.use_of i idle;
}

-- A step of the thread `i`.
pub data Works (i : ℕ) (s : System) : System → Type 0 where
  locks :
      s.stage i ≡ starting
      → s.mutex i ≡ none
      → Works i s (holds i (some in_thread) (stays i testing s))
  sees_none : s.stage i ≡ testing → s.task i ≡ none → Works i s (stays i dozing s)
  sees_task : (t : ℕ) → s.stage i ≡ testing → s.task i ≡ some t → Works i s (stays i unlocking s)
  sleeps : s.stage i ≡ dozing → Works i s (holds i none (stays i asleep s))
  locks_again :
      s.stage i ≡ woken
      → s.mutex i ≡ none
      → Works i s (holds i (some in_thread) (stays i testing s))
  unlocks : s.stage i ≡ unlocking → Works i s (holds i none (stays i running s))
  executes : (t : ℕ) → s.stage i ≡ running → s.task i ≡ some t → Works i s (runs i t s)
  resets : s.stage i ≡ clearing → Works i s (clears i s)
  returns : s.stage i ≡ pushing → Works i s (pushes i s)

-- A step of the call of `RunTask` with the task `t`.
pub data Calls (t : ℕ) (s : System) : System → Type 0 where
  takes :
      (i : ℕ) (q : List ℕ)
      → s.call t ≡ unmade
      → pop s.available_threads ≡ (some i, q)
      → Calls t s (pops t i q s)
  creates :
      (q : List ℕ) → s.call t ≡ unmade → pop s.available_threads ≡ (none, q) → Calls t s (makes t s)
  counts :
      (i : ℕ)
      → s.call t ≡ counting i
      → Calls t s (record (calls t (asserting i) s) { thread_count = s.thread_count + 1 })
  passes : (i : ℕ) → s.call t ≡ asserting i → s.task i ≡ none → Calls t s (calls t (setting i) s)
  fails : (i j : ℕ) → s.call t ≡ asserting i → s.task i ≡ some j → Calls t s (calls t failed s)
  assigns : (i : ℕ) → s.call t ≡ setting i → Calls t s (sets t i s)
  locks_too :
      (i : ℕ)
      → s.call t ≡ signalling i
      → s.mutex i ≡ none
      → Calls t s (holds i (some (in_call t)) (calls t (deciding i) s))
  signals :
      (i j : ℕ)
      → s.call t ≡ deciding i
      → s.task i ≡ some j
      → Calls t s (stays i (signalled (s.stage i)) (calls t (unlocking_call i) s))
  skips :
      (i : ℕ) → s.call t ≡ deciding i → s.task i ≡ none → Calls t s (calls t (unlocking_call i) s)
  unlocks_too :
      (i : ℕ) → s.call t ≡ unlocking_call i → Calls t s (holds i none (calls t returned s))

-- A step of a thread that is made, or of a call; `wakes` is a thread that wakes up by itself.
pub data Step (s : System) : System → Type 0 where
  works : (i : ℕ) {s' : System} → i < s.created → Works i s s' → Step s s'
  acts : (t : ℕ) {s' : System} → Calls t s s' → Step s s'
  wakes : (i : ℕ) → s.stage i ≡ asleep → Step s (stays i woken s)

pub data Reach : System → Type 0 where
  here : Reach start_state
  next : {s s' : System} → Reach s → Step s s' → Reach s'
