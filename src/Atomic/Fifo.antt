-- ===== src/Atomic/Fifo.antt =====
-- AtomicQueue: any series of calls, whoever makes them, against the order of the elements.
use database_concurrency_con.Prelude.{
  ◌≡◌, refl, sym, Bool, List, [], ◌∷◌, ◌++◌, append-nil, append_assoc, Option, none, some,
  if◌then◌else◌, arith,
}
use database_concurrency_con.Atomic.Queue.{push, pop, push_non_blocking, pop_non_blocking}

pub data Call {ℓ} (A : Type ℓ) : Type ℓ where
  pushes : A → Call A
  pops : Call A
  tries_push : (is_free : Bool) → A → Call A
  tries_pop : (is_free : Bool) → Call A

module _ {ℓ} {A : Type ℓ} where
  abbrev to_list : Option A → List A
  to_list none = []
  to_list (some x) = x ∷ []

  -- The queue after a call, and what the call popped.
  unfoldable pub step : Call A → List A → List A × List A
  step (pushes x) q = ([], push x q)
  step pops q = let (x, q') = pop q in (to_list x, q')
  step (tries_push is_free x) q = ([], (push_non_blocking is_free x q).1)
  step (tries_pop is_free) q = let (x, q') = pop_non_blocking is_free q in (to_list x, q')

  -- All that a series of calls pops, in order, and the queue after it.
  unfoldable pub run : List (Call A) → List A → List A × List A
  run [] q = ([], q)
  run (c ∷ cs) q = let (out, q') = step c q in let (outs, last) = run cs q' in (out ++ outs, last)

  -- What a series of calls pushes: a push that does not get the mutex pushes nothing.
  pub pushed : List (Call A) → List A
  pushed [] = []
  pushed (pushes x ∷ cs) = x ∷ pushed cs
  pushed (pops ∷ cs) = pushed cs
  pushed (tries_push is_free x ∷ cs) = let rest = pushed cs in if is_free then x ∷ rest else rest
  pushed (tries_pop is_free ∷ cs) = pushed cs

  step-pushed : (c : Call A) (q : List A) → (step c q).0 ++ (step c q).1 ≡ q ++ pushed (c ∷ [])
  unfolding step pushed push pop push_non_blocking pop_non_blocking
  step-pushed (pushes x) q = refl
  step-pushed pops [] = refl
  step-pushed pops (x ∷ q) = rw append-nil
  step-pushed (tries_push is_free x) q = ground (arith, append-nil q)
  step-pushed (tries_pop is_free) [] = refl
  step-pushed (tries_pop is_free) (x ∷ q) = ground (arith, append-nil q)

  pushed-cons : (c : Call A) (cs : List (Call A)) → pushed (c ∷ cs) ≡ pushed (c ∷ []) ++ pushed cs
  unfolding pushed
  pushed-cons (pushes x) cs = refl
  pushed-cons pops cs = refl
  pushed-cons (tries_push is_free x) cs = ground arith
  pushed-cons (tries_pop is_free) cs = refl

  -- First in, first out, and nothing is lost or made up: what has been popped, followed by what is
  -- left in the queue, is what was in the queue, followed by what has been pushed.
  pub run-pushed : (cs : List (Call A)) (q : List A) → (run cs q).0 ++ (run cs q).1 ≡ q ++ pushed cs
  unfolding run pushed
  run-pushed [] q = sym (append-nil q)
  run-pushed (c ∷ cs) q =
      let (out, q') = step c q in
      cc (
        append_assoc out (run cs q').0 (run cs q').1,
        run-pushed cs q',
        append_assoc out q' (pushed cs),
        step-pushed c q,
        append_assoc q (pushed (c ∷ [])) (pushed cs),
        pushed-cons c cs,
      )
