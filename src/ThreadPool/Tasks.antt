-- ===== src/ThreadPool/Tasks.antt =====
-- StaticThreadPool: no task is lost, and how long an idle thread sleeps.
use database_concurrency_con.Prelude.{
  ℕ, zero, suc, ◌%◌, ◌≤◌, ◌≡◌, ◌⊎◌, refl, ap, ◌∙◌, sym, Bool, false, List, [], ◌∷◌, ◌++◌,
  append-nil, append_assoc, Option, none, some, length, update, update-update, update_same,
  update_self, List-cases, inl, inr, if◌then◌else◌, ◌==◌, arith,
}
use mathlib.Core.Option
use database_concurrency_con.Atomic.Queue.{push_non_blocking, pop_non_blocking, pop}
use database_concurrency_con.ThreadPool.{
  Pool, Attempt, push_somewhere, run_task, back_off, after_pop, round, drain,
}

-- The first attempt that gets the mutex.
first_free : List Attempt → Option ℕ
first_free [] = none
first_free (a ∷ attempts) =
    let rest = first_free attempts in if a.is_free then some a.draw else rest

abbrev delivered : ℕ → Pool → ℕ → Pool
delivered task p draw =
    let i = draw % p.thread_count in
    record p { queues = update p.queues i (p.queues i ++ task ∷ []) }

push_somewhere_lem :
    (attempts : List Attempt) (task : ℕ) (p : Pool)
    → push_somewhere attempts task p ≡ Option.map (delivered task p) (first_free attempts)
unfolding push_somewhere push_non_blocking first_free
push_somewhere_lem [] task p = refl
push_somewhere_lem (a ∷ attempts) task p = ground (arith, push_somewhere_lem attempts task p)

-- On a pool that runs, a task goes to the end of exactly one queue, that of the first attempt that
-- gets the mutex, and no attempt but a successful one ends the loop. On a stopped pool the
-- assertion fails.
run_task-delivers :
    (attempts : List Attempt) (task : ℕ) (p : Pool)
    → run_task attempts task p
      ≡ (if p.stopped then none else Option.map (delivered task p) (first_free attempts))
unfolding run_task
run_task-delivers attempts task p = rw (push_somewhere_lem attempts task p)

-- A round runs the task in front of the thread's queue or none: what has run, followed by what is in
-- the queue, stays the same, and so do the other queues.
round-keeps :
    (id sleep_duration : ℕ) (is_free : Bool) (p : Pool)
    → let p' = (round id is_free sleep_duration p).0 in
      (p'.ran ++ p'.queues id ≡ p.ran ++ p.queues id)
      × ((j : ℕ) → (j == id) ≡ false → p'.queues j ≡ p.queues j)
unfolding round after_pop pop_non_blocking
round-keeps id sleep_duration is_free p = elim (List-cases (p.queues id)) [
  | inl e ↦ rw (e, round) (rw e refl, λ j h. refl)
  | inr (t, rest, e) ↦
      (ground (arith, append_assoc p.ran (t ∷ []) rest, e), λ j h. ground (arith, e))
]

-- The sleeps of an idle thread.
abbrev IsBackOff : ℕ → Type 0
IsBackOff n = (n ≡ 1) ⊎ ((n ≡ 2) ⊎ ((n ≡ 4) ⊎ ((n ≡ 8) ⊎ ((n ≡ 16) ⊎ (n ≡ 32)))))

-- The time for which an idle thread sleeps stays a power of two of at most 32 microseconds,
-- whatever a round finds.
round-IsBackOff :
    (id sleep_duration : ℕ) (is_free : Bool) (p : Pool)
    → IsBackOff sleep_duration
    → IsBackOff (round id is_free sleep_duration p).1
unfolding round after_pop back_off pop_non_blocking
round-IsBackOff id sleep_duration is_free p h = elim (List-cases (p.queues id)) [
  | inl e ↦ ground (arith, e)
  | inr (t, rest, e) ↦ ground (arith, e)
]

emptied : ℕ → Pool → Pool
emptied id p = record p { queues = update p.queues id []; ran = p.ran ++ p.queues id }

emptied_same : (id : ℕ) (p : Pool) → p.queues id ≡ [] → p ≡ emptied id p
unfolding emptied
emptied_same id p e = λ i. record p {
  queues = (sym (update_same p.queues id) ∙ ap (update p.queues id) e) i;
  ran = (sym (append-nil p.ran) ∙ ap (λ (q : List ℕ). p.ran ++ q) (sym e)) i;
}

none_left : (fuel id : ℕ) (p : Pool) → p.queues id ≡ [] → drain fuel id p ≡ emptied id p
unfolding drain pop
none_left zero id p e = emptied_same id p e
none_left (suc fuel) id p e = rw (e, drain) (emptied_same id p e)

-- A thread that stops runs all the tasks that are left in its own queue, in order, and leaves the
-- other queues alone: as many rounds as there are tasks are enough.
drain-runs :
    (fuel id : ℕ) (p : Pool)
    → length (p.queues id) ≤ fuel
    → drain fuel id p ≡ record p { queues = update p.queues id []; ran = p.ran ++ p.queues id }
unfolding drain pop emptied
drain-runs zero id p h = none_left zero id p (ground arith)
drain-runs (suc fuel) id p h = elim (List-cases (p.queues id)) [
  | inl e ↦ none_left (suc fuel) id p e
  | inr (t, rest, e) ↦
      let p' = record p { queues = update p.queues id rest; ran = p.ran ++ t ∷ [] } in
      let ran = drain-runs fuel id p' (ground (arith, e)) in
      rw (e, drain, e)
        (ran
          ∙ rw (update-update p.queues id rest [], update_self p.queues id rest)
              (ground (arith, append_assoc p.ran (t ∷ []) rest)))
]
