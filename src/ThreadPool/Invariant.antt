-- ===== src/ThreadPool/Invariant.antt =====
-- StaticThreadPool with all its threads: where the tasks are.
use database_concurrency_con.Prelude.{
  ℕ, ◌<◌, ◌≡◌, ◌≢◌, sym, ◌∙◌, Bool, true, false, List, [], ◌∷◌, Option, none, some, arith,
  Bool-cases, inl, inr, ◌==◌, ==→≡, ==_self,
}
use database_concurrency_con.Places.{Lists, Lists-move, Lists-push, Lists-pop}
use database_concurrency_con.ThreadPool.System.{
  Place, fresh, given, done, queued, taken, Worker, looping, checking, draining, ended, running,
  finishing, System, takes, has_run, goes,
}

-- The task that a thread runs.
abbrev task_of : Worker → Option ℕ
task_of looping = none
task_of checking = none
task_of draining = none
task_of ended = none
task_of (running t) = some t
task_of (finishing t) = some t

-- Whether a thread has seen `stopped_`.
abbrev is_leaving : Worker → Bool
is_leaving looping = false
is_leaving checking = false
is_leaving draining = true
is_leaving ended = true
is_leaving (running t) = false
is_leaving (finishing t) = true

-- The thread that a place belongs to, if it is one.
abbrev IsBelow : ℕ → Place → Type 0
IsBelow n fresh = Unit
IsBelow n given = Unit
IsBelow n done = Unit
IsBelow n (queued i) = i < n
IsBelow n (taken i) = i < n

-- What holds in every state that can be reached.
pub record Inv (s : System) : Type 0 where
  pub lists : (i : ℕ) → Lists (queued i) (s.queues i) s.place
  pub ran_all : Lists done s.ran s.place
  pub runs_it : (t i : ℕ) → s.place t ≡ taken i → task_of (s.workers i) ≡ some t
  pub is_run : (i t : ℕ) → task_of (s.workers i) ≡ some t → s.place t ≡ taken i
  pub below : (t : ℕ) → IsBelow s.thread_count (s.place t)
  pub emptied : (i : ℕ) → s.workers i ≡ ended → s.queues i ≡ []
  pub left : (i : ℕ) → is_leaving (s.workers i) ≡ true → s.stopped ≡ true
  pub closed : s.stopped ≡ true → (t : ℕ) → s.place t ≢ given

module _ (i : ℕ) (w : Worker) (s : System) (inv : Inv s) where
  pub goes-Inv :
      task_of w ≡ task_of (s.workers i)
      → (is_leaving w ≡ true → s.stopped ≡ true)
      → (w ≡ ended → s.queues i ≡ [])
      → Inv (goes i w s)
  goes-Inv same stopping empty = record {
    lists = inv.lists;
    ran_all = inv.ran_all;
    runs_it = λ t j e. elim (Bool-cases (i == j)) [
      | inl h ↦ rw h (same ∙ rw (==→≡ i j h) (inv.runs_it t j e))
      | inr h ↦ rw h (inv.runs_it t j e)
    ];
    is_run = λ j t e. elim (Bool-cases (i == j)) [
      | inl h ↦ inv.is_run j t (rw (sym (==→≡ i j h)) (sym same ∙ rw h at e))
      | inr h ↦ inv.is_run j t (rw h at e)
    ];
    below = inv.below;
    emptied = λ j e. elim (Bool-cases (i == j)) [
      | inl h ↦ rw (sym (==→≡ i j h)) (empty (rw h at e))
      | inr h ↦ inv.emptied j (rw h at e)
    ];
    left = λ j e. elim (Bool-cases (i == j)) [
      | inl h ↦ stopping (rw h at e)
      | inr h ↦ inv.left j (rw h at e)
    ];
    closed = inv.closed;
  }

  pub takes-Inv :
      (t : ℕ) (q : List ℕ)
      → i < s.thread_count
      → s.queues i ≡ t ∷ q
      → task_of (s.workers i) ≡ none
      → task_of w ≡ some t
      → (is_leaving w ≡ true → s.stopped ≡ true)
      → Inv (takes i t q w s)
  takes-Inv t q lt front idle busy stopping =
      let all_i = rw front at (inv.lists i) in
      let at_queue : s.place t ≡ queued i = all_i.0.1 t (ground (arith, ==_self t)) in
      record {
        lists = λ j. elim (Bool-cases (i == j)) [
          | inl h ↦
              rw (h, sym (==→≡ i j h))
                (Lists-pop (queued i) q s.place t (taken i) (λ e. ground (arith, e)) all_i)
          | inr h ↦ rw h (
              Lists-move (queued j) (s.queues j) s.place t (taken i)
                (λ e. ground (arith, e, at_queue, h, ==_self j)) (λ e. ground (arith, e))
                (inv.lists j))
        ];
        ran_all =
            Lists-move done s.ran s.place t (taken i) (λ e. ground (arith, e, at_queue))
              (λ e. ground (arith, e)) inv.ran_all;
        runs_it = λ a j e. elim (Bool-cases (t == a)) [
          | inl h ↦ ground (arith, rw h at e, busy, ==→≡ t a h, ==_self i)
          | inr h ↦ let old = inv.runs_it a j (rw h at e) in ground (arith, old, idle, ==→≡ i j)
        ];
        is_run = λ j a e. elim (Bool-cases (i == j)) [
          | inl h ↦ ground (arith, rw h at e, busy, ==→≡ i j h, ==_self t)
          | inr h ↦ let old = inv.is_run j a (rw h at e) in ground (arith, old, at_queue, ==→≡ t a)
        ];
        below = λ a. elim (Bool-cases (t == a)) [ inl h ↦ rw h lt | inr h ↦ rw h (inv.below a) ];
        emptied = λ j e. elim (Bool-cases (i == j)) [
          | inl h ↦ ground (arith, rw h at e, busy)
          | inr h ↦ rw h (inv.emptied j (rw h at e))
        ];
        left = λ j e. elim (Bool-cases (i == j)) [
          | inl h ↦ stopping (rw h at e)
          | inr h ↦ inv.left j (rw h at e)
        ];
        closed = λ e a e'. elim (Bool-cases (t == a)) [
          | inl h ↦ ground (arith, rw h at e')
          | inr h ↦ inv.closed e a (rw h at e')
        ];
      }

  pub has_run-Inv :
      (t : ℕ)
      → task_of (s.workers i) ≡ some t
      → task_of w ≡ none
      → (is_leaving w ≡ true → s.stopped ≡ true)
      → w ≢ ended
      → Inv (has_run i t w s)
  has_run-Inv t busy idle stopping on =
      let at_thread = inv.is_run i t busy in
      record {
        lists = λ j.
            Lists-move (queued j) (s.queues j) s.place t done (λ e. ground (arith, e, at_thread))
              (λ e. ground (arith, e)) (inv.lists j);
        ran_all = Lists-push done s.ran s.place t (λ e. ground (arith, e, at_thread)) inv.ran_all;
        runs_it = λ a j e. elim (Bool-cases (t == a)) [
          | inl h ↦ ground (arith, rw h at e)
          | inr h ↦
              let old = inv.runs_it a j (rw h at e) in
              ground (arith, old, busy, ==→≡ i j, ==_self t, h)
        ];
        is_run = λ j a e. elim (Bool-cases (i == j)) [
          | inl h ↦ ground (arith, rw h at e, idle)
          | inr h ↦
              let old = inv.is_run j a (rw h at e) in
              ground (arith, old, at_thread, ==→≡ t a, ==_self i, h)
        ];
        below = λ a. elim (Bool-cases (t == a)) [ inl h ↦ rw h tt | inr h ↦ rw h (inv.below a) ];
        emptied = λ j e. elim (Bool-cases (i == j)) [
          | inl h ↦ absurd (on (rw h at e))
          | inr h ↦ inv.emptied j (rw h at e)
        ];
        left = λ j e. elim (Bool-cases (i == j)) [
          | inl h ↦ stopping (rw h at e)
          | inr h ↦ inv.left j (rw h at e)
        ];
        closed = λ e a e'. elim (Bool-cases (t == a)) [
          | inl h ↦ ground (arith, rw h at e')
          | inr h ↦ inv.closed e a (rw h at e')
        ];
      }
