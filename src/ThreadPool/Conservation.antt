-- ===== src/ThreadPool/Conservation.antt =====
-- StaticThreadPool with all its threads: no task is lost, and none runs twice.
use database_concurrency_con.Prelude.{
  ℕ, ◌<◌, ◌≡◌, ◌≢◌, refl, true, false, arith, contains, Distinct,
}
use database_concurrency_con.Places.{absent}
use database_concurrency_con.ThreadPool.System.{
  Place, fresh, given, done, queued, taken, ended, System, start_state, Reach,
}
use database_concurrency_con.ThreadPool.Invariant.{Inv}
use database_concurrency_con.ThreadPool.Preservation.{reach-Inv, reach-count}

-- In a pool of threads and clients that take their steps in any order, no task runs twice: none is
-- twice among those that have run, or twice in a queue, and one that has run is in no queue, and with
-- no thread and no call.
pub static_pool-runs_once :
    {n : ℕ} {s : System}
    → 0 < n
    → Reach (start_state n) s
    → Distinct s.ran
      × ((i : ℕ) → Distinct (s.queues i))
      × ((t : ℕ)
          → contains t s.ran ≡ true
          → ((i : ℕ) → contains t (s.queues i) ≡ false) × (s.place t ≡ done))
static_pool-runs_once {s = s} some_thread r =
    let inv = reach-Inv some_thread r in
    (
      inv.ran_all.0.0,
      λ i. (inv.lists i).0.0,
      λ t e.
          let at_end = inv.ran_all.0.1 t e in
          (
            λ i.
                absent (queued i) (s.queues i) s.place t (λ e'. ground (arith, at_end, e'))
                  (inv.lists i).0,
            at_end,
          ),
    )

ended-done :
    (s : System)
    → Inv s
    → ((i : ℕ) → i < s.thread_count → s.workers i ≡ ended)
    → s.stopped ≡ true
    → (t : ℕ) (p : Place) → s.place t ≡ p
    → s.place t ≢ fresh
    → s.place t ≡ done
ended-done s inv over off t fresh e called = absurd (called e)
ended-done s inv over off t given e called = absurd (inv.closed off t e)
ended-done s inv over off t done e called = e
ended-done s inv over off t (queued i) e called =
    let none_left = inv.emptied i (over i (rw e at (inv.below t))) in
    let there = (inv.lists i).1 t e in ground (arith, there, none_left)
ended-done s inv over off t (taken i) e called =
    let finished = over i (rw e at (inv.below t)) in ground (arith, inv.runs_it t i e, finished)

-- When all the threads of a pool have ended, each task of which there was a call of `RunTask` has run,
-- exactly once, whichever queue it went to and whoever took which step when. The destructor runs when
-- no call is left.
pub static_pool-runs_all :
    {n : ℕ} {s : System}
    → 0 < n
    → Reach (start_state n) s
    → ((i : ℕ) → i < n → s.workers i ≡ ended)
    → Distinct s.ran × ((t : ℕ) → s.place t ≢ fresh → contains t s.ran ≡ true)
static_pool-runs_all {n} {s} some_thread r over =
    let inv = reach-Inv some_thread r in
    let off = inv.left 0 (rw (over 0 some_thread) refl) in
    (
      inv.ran_all.0.0,
      λ t called. inv.ran_all.1 t (
          ended-done s inv (λ i lt. over i (rw (reach-count r) at lt)) off t (s.place t) refl
            called),
    )
