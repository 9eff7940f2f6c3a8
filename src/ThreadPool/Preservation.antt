-- ===== src/ThreadPool/Preservation.antt =====
-- StaticThreadPool with all its threads: every step keeps the tasks where the invariant has them.
use database_concurrency_con.Prelude.{
  ℕ, ◌%◌, ◌<◌, ◌≡◌, ◌≢◌, refl, sym, ◌∙◌, Bool, false, List, [], ◌∷◌, ◌++◌, none, some, update,
  arith, Bool-cases, inl, inr, ◌==◌, ==→≡, ==_self, mod-lt, update_same,
}
use database_concurrency_con.Places.{Lists-move, Lists-push}
use database_concurrency_con.Atomic.Queue.{push_non_blocking, pop_non_blocking, pop}
use database_concurrency_con.ThreadPool.{Attempt, active, stop}
use database_concurrency_con.ThreadPool.System.{
  fresh, given, done, queued, looping, checking, draining, ended, running, finishing, System,
  start_state, tried, Works, pops, sleeps, runs, rounds, leaves, drains, finishes, ends, Step,
  calls, tries, stops, works, Reach, here, next,
}
use database_concurrency_con.ThreadPool.Invariant.{Inv, goes-Inv, takes-Inv, has_run-Inv}

pub popped :
    (is_free : Bool) (q q' : List ℕ) (t : ℕ)
    → pop_non_blocking is_free q ≡ (some t, q')
    → q ≡ t ∷ q'
unfolding pop_non_blocking
popped is_free [] q' t e = ground (arith, e)
popped is_free (x ∷ q) q' t e = ground (arith, e)

pub popped_last : (q q' : List ℕ) (t : ℕ) → pop q ≡ (some t, q') → q ≡ t ∷ q'
unfolding pop
popped_last [] q' t e = ground (arith, e)
popped_last (x ∷ q) q' t e = ground (arith, e)

no_more : (q q' : List ℕ) → pop q ≡ (none, q') → q ≡ []
unfolding pop
no_more [] q' e = refl
no_more (x ∷ q) q' e = ground (arith, e)

Works-keeps : (i : ℕ) {s s' : System} → i < s.thread_count → Works i s s' → Inv s → Inv s'
Works-keeps i {s} lt (pops is_free t q e took) inv =
    takes-Inv i (running t) s inv t q lt (popped is_free _ q t took) (rw e refl) refl
      (λ l. ground (arith, l))
Works-keeps i {s} lt (sleeps is_free q e took) inv =
    goes-Inv i checking s inv (rw e refl) (λ l. ground (arith, l)) (λ l. ground (arith, l))
Works-keeps i {s} lt (runs t e) inv =
    has_run-Inv i checking s inv t (rw e refl) refl (λ l. ground (arith, l))
      (λ l. ground (arith, l))
Works-keeps i {s} lt (rounds e on) inv =
    goes-Inv i looping s inv (rw e refl) (λ l. ground (arith, l)) (λ l. ground (arith, l))
Works-keeps i {s} lt (leaves e off) inv =
    goes-Inv i draining s inv (rw e refl) (λ l. off) (λ l. ground (arith, l))
Works-keeps i {s} lt (drains t q e took) inv =
    takes-Inv i (finishing t) s inv t q lt (popped_last _ q t took) (rw e refl) refl
      (λ l. inv.left i (rw e refl))
Works-keeps i {s} lt (finishes t e) inv =
    has_run-Inv i draining s inv t (rw e refl) refl (λ l. inv.left i (rw e refl))
      (λ l. ground (arith, l))
Works-keeps i {s} lt (ends q e took) inv =
    goes-Inv i ended s inv (rw e refl) (λ l. inv.left i (rw e refl)) (λ l. no_more _ q took)

module _ (t : ℕ) (s : System) (inv : Inv s) where
  calls-Inv :
      s.place t ≡ fresh → s.stopped ≡ false → Inv (record s { place = update s.place t given })
  calls-Inv e open_now = record {
    lists = λ j.
        Lists-move (queued j) (s.queues j) s.place t given (λ e'. ground (arith, e, e'))
          (λ e'. ground (arith, e')) (inv.lists j);
    ran_all =
        Lists-move done s.ran s.place t given (λ e'. ground (arith, e, e'))
          (λ e'. ground (arith, e')) inv.ran_all;
    runs_it = λ a j e'. elim (Bool-cases (t == a)) [
      | inl h ↦ ground (arith, rw h at e')
      | inr h ↦ inv.runs_it a j (rw h at e')
    ];
    is_run = λ j a e'. let old = inv.is_run j a e' in ground (arith, old, e, ==→≡ t a);
    below = λ a. elim (Bool-cases (t == a)) [ inl h ↦ rw h tt | inr h ↦ rw h (inv.below a) ];
    emptied = inv.emptied;
    left = inv.left;
    closed = λ off. ground (arith, off, open_now);
  }

  pushed-Inv :
      (i : ℕ)
      → s.place t ≡ given
      → i < s.thread_count
      → Inv (record s {
        pool = record s.pool { queues = update s.queues i (s.queues i ++ t ∷ []) };
        place = update s.place t (queued i);
      })
  pushed-Inv i e lt = record {
    lists = λ j. elim (Bool-cases (i == j)) [
      | inl h ↦
          rw (h, sym (==→≡ i j h))
            (Lists-push (queued i) (s.queues i) s.place t (λ e'. ground (arith, e, e'))
              (inv.lists i))
      | inr h ↦ rw h (
          Lists-move (queued j) (s.queues j) s.place t (queued i) (λ e'. ground (arith, e, e'))
            (λ e'. ground (arith, e', h, ==_self j)) (inv.lists j))
    ];
    ran_all =
        Lists-move done s.ran s.place t (queued i) (λ e'. ground (arith, e, e'))
          (λ e'. ground (arith, e')) inv.ran_all;
    runs_it = λ a j e'. elim (Bool-cases (t == a)) [
      | inl h ↦ ground (arith, rw h at e')
      | inr h ↦ inv.runs_it a j (rw h at e')
    ];
    is_run = λ j a e'. let old = inv.is_run j a e' in ground (arith, old, e, ==→≡ t a);
    below = λ a. elim (Bool-cases (t == a)) [ inl h ↦ rw h lt | inr h ↦ rw h (inv.below a) ];
    emptied = λ j e'. absurd (inv.closed (inv.left j (rw e' refl)) t e);
    left = inv.left;
    closed = λ off. absurd (inv.closed off t e);
  }

  tried-Inv : (a : Attempt) → s.place t ≡ given → 0 < s.thread_count → Inv (tried t a s)
  unfolding push_non_blocking
  tried-Inv a e some_thread = elim (Bool-cases a.is_free) [
    | inl free ↦ rw free (pushed-Inv (a.draw % s.thread_count) e (mod-lt a.draw some_thread))
    | inr busy ↦ rw (busy, update_same s.queues (a.draw % s.thread_count)) inv
  ]

stops-Inv :
    (s : System) → ((t : ℕ) → s.place t ≢ given) → Inv s → Inv (record s { pool = stop s.pool })
unfolding stop
stops-Inv s idle inv = record {
  lists = inv.lists;
  ran_all = inv.ran_all;
  runs_it = inv.runs_it;
  is_run = inv.is_run;
  below = inv.below;
  emptied = inv.emptied;
  left = λ j e. refl;
  closed = λ off. idle;
}

Step-keeps : {s s' : System} → Step s s' → 0 < s.thread_count → Inv s → Inv s'
unfolding active
Step-keeps {s} (calls t e on) some_thread inv = calls-Inv t s inv e (ground (arith, on))
Step-keeps {s} (tries t a e) some_thread inv = tried-Inv t s inv a e some_thread
Step-keeps {s} (stops idle) some_thread inv = stops-Inv s idle inv
Step-keeps {s} (works i lt w) some_thread inv = Works-keeps i lt w inv

Works-count : {i : ℕ} {s s' : System} → Works i s s' → s'.thread_count ≡ s.thread_count
Works-count (pops is_free t q e took) = refl
Works-count (sleeps is_free q e took) = refl
Works-count (runs t e) = refl
Works-count (rounds e on) = refl
Works-count (leaves e off) = refl
Works-count (drains t q e took) = refl
Works-count (finishes t e) = refl
Works-count (ends q e took) = refl

Step-count : {s s' : System} → Step s s' → s'.thread_count ≡ s.thread_count
unfolding stop
Step-count (calls t e on) = refl
Step-count (tries t a e) = refl
Step-count (stops idle) = refl
Step-count (works i lt w) = Works-count w

pub reach-count : {n : ℕ} {s : System} → Reach (start_state n) s → s.thread_count ≡ n
reach-count here = refl
reach-count (next r step) = Step-count step ∙ reach-count r

pub reach-Inv : {n : ℕ} {s : System} → 0 < n → Reach (start_state n) s → Inv s
reach-Inv some_thread here = record {
  lists = λ j. ((tt, λ a e. ground (arith, e)), λ a e. ground (arith, e));
  ran_all = ((tt, λ a e. ground (arith, e)), λ a e. ground (arith, e));
  runs_it = λ t j e. ground (arith, e);
  is_run = λ j t e. ground (arith, e);
  below = λ t. tt;
  emptied = λ j e. refl;
  left = λ j e. ground (arith, e);
  closed = λ off t e. ground (arith, e);
}
reach-Inv some_thread (next r step) =
    Step-keeps step (rw (sym (reach-count r)) at some_thread) (reach-Inv some_thread r)
