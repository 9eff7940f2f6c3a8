-- ===== src/ThreadPool/DynamicPool/ThreadSteps.antt =====
-- DynamicThreadPool: the steps of the threads keep the invariant.
use database_concurrency_con.Prelude.{
  ℕ, ◌≡◌, refl, sym, ◌∙◌, true, Option, some, arith, Bool-cases, inl, inr, ◌==◌, ==→≡, ==_self,
}
use database_concurrency_con.Places.{Lists-move, Lists-push}
use database_concurrency_con.Atomic.Queue.{push}
use database_concurrency_con.ThreadPool.DynamicPool.{
  Stage, running, clearing, pushing, Holder, in_thread, in_call, cleared, idle, loaded, over,
  at_thread, System, stays, holds, runs, clears, pushes,
}
use database_concurrency_con.ThreadPool.DynamicPool.Views.{
  is_locking, is_drowsy, fits, pending, has_task-loaded, is_cleared-cleared,
}
use database_concurrency_con.ThreadPool.DynamicPool.Invariant.{Inv, Signals}

module _ (i : ℕ) (p : Stage) (s : System) (inv : Inv s) where
  pub holds-stays-Inv :
      (m : Option Holder)
      → fits p (s.use_of i) ≡ true
      → pending p (s.use_of i) ≡ pending (s.stage i) (s.use_of i)
      → (is_locking p ≡ true → m ≡ some in_thread)
      → (m ≡ some in_thread → is_locking p ≡ true)
      → ((t : ℕ) → m ≡ some (in_call t) → s.mutex i ≡ some (in_call t))
      → ((t : ℕ) → s.mutex i ≡ some (in_call t) → m ≡ some (in_call t))
      → ((t : ℕ) → is_drowsy p ≡ true → s.use_of i ≡ loaded t → Signals s t i)
      → Inv (holds i m (stays i p s))
  holds-stays-Inv m fit same locking locked more fewer waker = record {
    available = inv.available;
    unmade_from = inv.unmade_from;
    made_below = inv.made_below;
    slots = inv.slots;
    has_thread = inv.has_thread;
    stages = λ j. elim (Bool-cases (i == j)) [
      | inl h ↦ rw (h, sym (==→≡ i j h)) fit
      | inr h ↦ rw h (inv.stages j)
    ];
    thread_locks = λ j e. elim (Bool-cases (i == j)) [
      | inl h ↦ rw h (locking (rw h at e))
      | inr h ↦ rw h (inv.thread_locks j (rw h at e))
    ];
    thread_locked = λ j e. elim (Bool-cases (i == j)) [
      | inl h ↦ rw h (locked (rw h at e))
      | inr h ↦ rw h (inv.thread_locked j (rw h at e))
    ];
    call_locks = λ t j e. elim (Bool-cases (i == j)) [
      | inl h ↦ rw h (fewer t (rw (sym (==→≡ i j h)) at (inv.call_locks t j e)))
      | inr h ↦ rw h (inv.call_locks t j e)
    ];
    call_locked = λ t j e. elim (Bool-cases (i == j)) [
      | inl h ↦ inv.call_locked t j (rw (==→≡ i j h) at (more t (rw h at e)))
      | inr h ↦ inv.call_locked t j (rw h at e)
    ];
    wakers = λ j t e u. elim (Bool-cases (i == j)) [
      | inl h ↦ rw (sym (==→≡ i j h)) (waker t (rw h at e) (rw (sym (==→≡ i j h)) at u))
      | inr h ↦ inv.wakers j t (rw h at e) u
    ];
    run_all = inv.run_all;
    early = inv.early;
    late = inv.late;
    pending_at = λ j t e. elim (Bool-cases (i == j)) [
      | inl h ↦ inv.pending_at j t (rw (==→≡ i j h) at (sym same ∙ rw (h, sym (==→≡ i j h)) at e))
      | inr h ↦ inv.pending_at j t (rw h at e)
    ];
    at_pending = λ j t e. elim (Bool-cases (i == j)) [
      | inl h ↦ rw (h, sym (==→≡ i j h)) (same ∙ inv.at_pending i t (rw (sym (==→≡ i j h)) at e))
      | inr h ↦ rw h (inv.at_pending j t e)
    ];
  }

module _ (i : ℕ) (s : System) (inv : Inv s) where
  pub runs-Inv : (t : ℕ) → s.stage i ≡ running → s.use_of i ≡ loaded t → Inv (runs i t s)
  runs-Inv t e u =
      let mine : s.fate t ≡ at_thread i = inv.pending_at i t (rw (e, u) refl) in
      record {
        available = inv.available;
        unmade_from = inv.unmade_from;
        made_below = inv.made_below;
        slots = inv.slots;
        has_thread = inv.has_thread;
        stages = λ j. elim (Bool-cases (i == j)) [
          | inl h ↦ rw (h, sym (==→≡ i j h), u) refl
          | inr h ↦ rw h (inv.stages j)
        ];
        thread_locks = λ j e'. elim (Bool-cases (i == j)) [
          | inl h ↦ ground (arith, rw h at e')
          | inr h ↦ inv.thread_locks j (rw h at e')
        ];
        thread_locked = λ j e'. elim (Bool-cases (i == j)) [
          | inl h ↦ ground (arith, rw e at (inv.thread_locked i (rw (==→≡ i j h) e')))
          | inr h ↦ rw h (inv.thread_locked j e')
        ];
        call_locks = inv.call_locks;
        call_locked = inv.call_locked;
        wakers = λ j a e' u'. elim (Bool-cases (i == j)) [
          | inl h ↦ ground (arith, rw h at e')
          | inr h ↦ inv.wakers j a (rw h at e') u'
        ];
        run_all = Lists-push over s.ran s.fate t (λ e'. ground (arith, mine, e')) inv.run_all;
        early = λ a e'. elim (Bool-cases (t == a)) [
          | inl h ↦ ground (arith, inv.early a e', ==→≡ t a h, mine)
          | inr h ↦ rw h (inv.early a e')
        ];
        late = λ a e'. elim (Bool-cases (t == a)) [
          | inl h ↦ ground (arith, rw h at e')
          | inr h ↦ inv.late a (rw h at e')
        ];
        pending_at = λ j a e'. elim (Bool-cases (i == j)) [
          | inl h ↦ ground (arith, rw h at e')
          | inr h ↦
              let theirs = inv.pending_at j a (rw h at e') in
              ground (arith, theirs, mine, ==→≡ t a, h, ==_self i)
        ];
        at_pending = λ j a e'. elim (Bool-cases (t == a)) [
          | inl h ↦ ground (arith, rw h at e')
          | inr h ↦
              let theirs = inv.at_pending j a (rw h at e') in
              elim (Bool-cases (i == j)) [
                | inl h' ↦ ground (arith, rw (sym (==→≡ i j h'), e, u) at theirs, h, ==_self t)
                | inr h' ↦ rw h' theirs
              ]
        ];
      }

  pub clears-Inv : s.stage i ≡ clearing → Inv (clears i s)
  clears-Inv e =
      let (t, u) = has_task-loaded (s.use_of i) (rw e at (inv.stages i)) in
      record {
        available =
            Lists-move idle s.available_threads s.use_of i cleared (λ e'. ground (arith, u, e'))
              (λ e'. ground (arith, e')) inv.available;
        unmade_from = λ j lt. elim (Bool-cases (i == j)) [
          | inl h ↦ ground (arith, inv.unmade_from j lt, ==→≡ i j h, u)
          | inr h ↦ rw h (inv.unmade_from j lt)
        ];
        made_below = λ j lt e'. elim (Bool-cases (i == j)) [
          | inl h ↦ ground (arith, rw h at e')
          | inr h ↦ inv.made_below j lt (rw h at e')
        ];
        slots = λ j. elim (Bool-cases (i == j)) [ inl h ↦ rw h refl | inr h ↦ rw h (inv.slots j) ];
        has_thread = λ a j e'. elim (Bool-cases (i == j)) [
          | inl h ↦ ground (arith, inv.has_thread a j e', ==→≡ i j h, u)
          | inr h ↦ rw h (inv.has_thread a j e')
        ];
        stages =
            λ j. elim (Bool-cases (i == j)) [ inl h ↦ rw h refl | inr h ↦ rw h (inv.stages j) ];
        thread_locks = λ j e'. elim (Bool-cases (i == j)) [
          | inl h ↦ ground (arith, rw h at e')
          | inr h ↦ inv.thread_locks j (rw h at e')
        ];
        thread_locked = λ j e'. elim (Bool-cases (i == j)) [
          | inl h ↦ ground (arith, rw e at (inv.thread_locked i (rw (==→≡ i j h) e')))
          | inr h ↦ rw h (inv.thread_locked j e')
        ];
        call_locks = inv.call_locks;
        call_locked = inv.call_locked;
        wakers = λ j a e' u'. elim (Bool-cases (i == j)) [
          | inl h ↦ ground (arith, rw h at e')
          | inr h ↦ inv.wakers j a (rw h at e') (rw h at u')
        ];
        run_all = inv.run_all;
        early = inv.early;
        late = inv.late;
        pending_at = λ j a e'. elim (Bool-cases (i == j)) [
          | inl h ↦ ground (arith, rw h at e')
          | inr h ↦ inv.pending_at j a (rw h at e')
        ];
        at_pending = λ j a e'. elim (Bool-cases (i == j)) [
          | inl h ↦ ground (arith, rw (sym (==→≡ i j h), e) at (inv.at_pending j a e'))
          | inr h ↦ rw h (inv.at_pending j a e')
        ];
      }

  pub pushes-Inv : s.stage i ≡ pushing → Inv (pushes i s)
  unfolding push
  pushes-Inv e =
      let u = is_cleared-cleared (s.use_of i) (rw e at (inv.stages i)) in
      record {
        available =
            Lists-push idle s.available_threads s.use_of i (λ e'. ground (arith, u, e'))
              inv.available;
        unmade_from = λ j lt. elim (Bool-cases (i == j)) [
          | inl h ↦ ground (arith, inv.unmade_from j lt, ==→≡ i j h, u)
          | inr h ↦ rw h (inv.unmade_from j lt)
        ];
        made_below = λ j lt e'. elim (Bool-cases (i == j)) [
          | inl h ↦ ground (arith, rw h at e')
          | inr h ↦ inv.made_below j lt (rw h at e')
        ];
        slots = λ j. elim (Bool-cases (i == j)) [
          | inl h ↦ rw (h, sym (==→≡ i j h)) (inv.slots i ∙ rw u refl)
          | inr h ↦ rw h (inv.slots j)
        ];
        has_thread = λ a j e'. elim (Bool-cases (i == j)) [
          | inl h ↦ ground (arith, inv.has_thread a j e', ==→≡ i j h, u)
          | inr h ↦ rw h (inv.has_thread a j e')
        ];
        stages =
            λ j. elim (Bool-cases (i == j)) [ inl h ↦ rw h refl | inr h ↦ rw h (inv.stages j) ];
        thread_locks = λ j e'. elim (Bool-cases (i == j)) [
          | inl h ↦ ground (arith, rw h at e')
          | inr h ↦ inv.thread_locks j (rw h at e')
        ];
        thread_locked = λ j e'. elim (Bool-cases (i == j)) [
          | inl h ↦ ground (arith, rw e at (inv.thread_locked i (rw (==→≡ i j h) e')))
          | inr h ↦ rw h (inv.thread_locked j e')
        ];
        call_locks = inv.call_locks;
        call_locked = inv.call_locked;
        wakers = λ j a e' u'. elim (Bool-cases (i == j)) [
          | inl h ↦ ground (arith, rw h at e')
          | inr h ↦ inv.wakers j a (rw h at e') (rw h at u')
        ];
        run_all = inv.run_all;
        early = inv.early;
        late = inv.late;
        pending_at = λ j a e'. elim (Bool-cases (i == j)) [
          | inl h ↦ ground (arith, rw h at e')
          | inr h ↦ inv.pending_at j a (rw h at e')
        ];
        at_pending = λ j a e'. elim (Bool-cases (i == j)) [
          | inl h ↦ ground (arith, rw (sym (==→≡ i j h), e) at (inv.at_pending j a e'))
          | inr h ↦ rw h (inv.at_pending j a e')
        ];
      }
