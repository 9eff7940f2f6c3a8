-- ===== src/ThreadPool/DynamicPool/CallSteps.antt =====
-- DynamicThreadPool: the steps of the calls of `RunTask` keep the invariant.
use database_concurrency_con.Prelude.{
  ℕ, ◌≡◌, ◌⊎◌, refl, sym, ◌∙◌, true, false, Option, some, update, arith, Bool-cases, inl, inr, ◌==◌,
  ==→≡, ==_self,
}
use database_concurrency_con.Places.{Lists-move}
use database_concurrency_con.ThreadPool.DynamicPool.{
  Call, setting, signalling, deciding, Holder, in_thread, in_call, idle, reserved, loaded, untaken,
  over, at_thread, System, calls, holds, sets,
}
use database_concurrency_con.ThreadPool.DynamicPool.Views.{
  reserving, is_early, locked_by, is_drowsy, refits, pending-slot, is_drowsy-pending,
}
use database_concurrency_con.ThreadPool.DynamicPool.Invariant.{Inv}

module _ (t i : ℕ) (c : Call) (s : System) (inv : Inv s) where
  -- The call `t` goes on, and takes or leaves the mutex of the thread `i`, or neither.
  pub holds-calls-Inv :
      (m : Option Holder)
      → ((j : ℕ) → reserving c ≡ some j → s.use_of j ≡ reserved t)
      → is_early c ≡ is_early (s.call t)
      → (m ≡ some in_thread → s.mutex i ≡ some in_thread)
      → (s.mutex i ≡ some in_thread → m ≡ some in_thread)
      → ((a : ℕ) → (t == a) ≡ false → m ≡ some (in_call a) → s.mutex i ≡ some (in_call a))
      → ((a : ℕ) → (t == a) ≡ false → s.mutex i ≡ some (in_call a) → m ≡ some (in_call a))
      → ((j : ℕ) → locked_by c ≡ some j → (update s.mutex i m) j ≡ some (in_call t))
      → ((j : ℕ) → (update s.mutex i m) j ≡ some (in_call t) → locked_by c ≡ some j)
      → ((j : ℕ)
          → is_drowsy (s.stage j) ≡ true
          → s.use_of j ≡ loaded t
          → (c ≡ signalling j) ⊎ (c ≡ deciding j))
      → Inv (holds i m (calls t c s))
  holds-calls-Inv m reserve same less more fewer_calls more_calls lock locked waker = record {
    available = inv.available;
    unmade_from = inv.unmade_from;
    made_below = inv.made_below;
    slots = inv.slots;
    has_thread = λ a j e. elim (Bool-cases (t == a)) [
      | inl h ↦ rw (sym (==→≡ t a h)) (reserve j (rw h at e))
      | inr h ↦ inv.has_thread a j (rw h at e)
    ];
    stages = inv.stages;
    thread_locks = λ j e. elim (Bool-cases (i == j)) [
      | inl h ↦ rw h (more (rw (sym (==→≡ i j h)) at (inv.thread_locks j e)))
      | inr h ↦ rw h (inv.thread_locks j e)
    ];
    thread_locked = λ j e. elim (Bool-cases (i == j)) [
      | inl h ↦ inv.thread_locked j (rw (==→≡ i j h) at (less (rw h at e)))
      | inr h ↦ inv.thread_locked j (rw h at e)
    ];
    call_locks = λ a j e. elim (Bool-cases (t == a)) [
      | inl h ↦ rw (sym (==→≡ t a h)) (lock j (rw h at e))
      | inr h ↦
          let old = inv.call_locks a j (rw h at e) in
          elim (Bool-cases (i == j)) [
            | inl h' ↦ rw h' (more_calls a h (rw (sym (==→≡ i j h')) at old))
            | inr h' ↦ rw h' old
          ]
    ];
    call_locked = λ a j e. elim (Bool-cases (t == a)) [
      | inl h ↦ rw h (locked j (rw (sym (==→≡ t a h)) at e))
      | inr h ↦ elim (Bool-cases (i == j)) [
        | inl h' ↦ rw h (inv.call_locked a j (rw (==→≡ i j h') at (fewer_calls a h (rw h' at e))))
        | inr h' ↦ rw h (inv.call_locked a j (rw h' at e))
      ]
    ];
    wakers = λ j a e u. elim (Bool-cases (t == a)) [
      | inl h ↦ rw h (waker j e (rw (sym (==→≡ t a h)) at u))
      | inr h ↦ rw h (inv.wakers j a e u)
    ];
    run_all = inv.run_all;
    early = λ a e. elim (Bool-cases (t == a)) [
      | inl h ↦ inv.early a (rw (==→≡ t a h) at (sym same ∙ rw h at e))
      | inr h ↦ inv.early a (rw h at e)
    ];
    late = λ a e. elim (Bool-cases (t == a)) [
      | inl h ↦ rw h (same ∙ rw (==→≡ t a h) (inv.late a e))
      | inr h ↦ rw h (inv.late a e)
    ];
    pending_at = inv.pending_at;
    at_pending = inv.at_pending;
  }

module _ (t i : ℕ) (s : System) (inv : Inv s) where
  pub sets-Inv : s.call t ≡ setting i → Inv (sets t i s)
  sets-Inv e =
      let u : s.use_of i ≡ reserved t = inv.has_thread t i (rw e refl) in
      let mine : s.fate t ≡ untaken = inv.early t (rw e refl) in
      let (fit, pends) =
        refits (s.stage i) (s.use_of i) (loaded t) (rw u refl) (rw u refl) refl (inv.stages i) in
      record {
        available =
            Lists-move idle s.available_threads s.use_of i (loaded t) (λ e'. ground (arith, u, e'))
              (λ e'. ground (arith, e')) inv.available;
        unmade_from = λ j lt. elim (Bool-cases (i == j)) [
          | inl h ↦ ground (arith, inv.unmade_from j lt, ==→≡ i j h, u)
          | inr h ↦ rw h (inv.unmade_from j lt)
        ];
        made_below = λ j lt e'. elim (Bool-cases (i == j)) [
          | inl h ↦ ground (arith, rw h at e')
          | inr h ↦ inv.made_below j lt (rw h at e')
        ];
        slots = λ j. elim (Bool-cases (i == j)) [ inl h ↦ rw h refl | inr h ↦ rw h (inv.slots j) ];
        has_thread = λ a j e'. elim (Bool-cases (t == a)) [
          | inl h ↦ ground (arith, rw h at e')
          | inr h ↦ ground (arith, inv.has_thread a j (rw h at e'), u, ==→≡ i j, h, ==_self t)
        ];
        stages = λ j. elim (Bool-cases (i == j)) [
          | inl h ↦ rw (h, sym (==→≡ i j h)) fit
          | inr h ↦ rw h (inv.stages j)
        ];
        thread_locks = inv.thread_locks;
        thread_locked = inv.thread_locked;
        call_locks = λ a j e'. elim (Bool-cases (t == a)) [
          | inl h ↦ ground (arith, rw h at e')
          | inr h ↦ inv.call_locks a j (rw h at e')
        ];
        call_locked = λ a j e'. elim (Bool-cases (t == a)) [
          | inl h ↦ ground (arith, inv.call_locked a j e', ==→≡ t a h, e)
          | inr h ↦ rw h (inv.call_locked a j e')
        ];
        wakers = λ j a e' u'. elim (Bool-cases (i == j)) [
          | inl h ↦ ground (arith, rw h at u', ==→≡ i j h, ==_self t)
          | inr h ↦
              let there = rw h at u' in
              let away : s.fate a ≡ at_thread j =
                inv.pending_at j a
                  (is_drowsy-pending (s.stage j) (s.use_of j) e' ∙ rw there refl) in
              let old = inv.wakers j a e' there in ground (arith, away, mine, old, ==→≡ t a)
        ];
        run_all =
            Lists-move over s.ran s.fate t (at_thread i) (λ e'. ground (arith, mine, e'))
              (λ e'. ground (arith, e')) inv.run_all;
        early = λ a e'. elim (Bool-cases (t == a)) [
          | inl h ↦ ground (arith, rw h at e')
          | inr h ↦ rw h (inv.early a (rw h at e'))
        ];
        late = λ a e'. elim (Bool-cases (t == a)) [
          | inl h ↦ ground (arith, rw h at e')
          | inr h ↦ rw h (inv.late a (rw h at e'))
        ];
        pending_at = λ j a e'. elim (Bool-cases (i == j)) [
          | inl h ↦ ground (arith, rw (h, sym (==→≡ i j h)) at e', pends, ==→≡ i j h, ==_self t)
          | inr h ↦ ground (arith, inv.pending_at j a (rw h at e'), mine, ==→≡ t a)
        ];
        at_pending = λ j a e'. elim (Bool-cases (t == a)) [
          | inl h ↦ ground (arith, rw h at e', pends, ==→≡ t a h, ==_self i)
          | inr h ↦
              let old = inv.at_pending j a (rw h at e') in
              ground (arith, old, pending-slot (s.stage i) (reserved t) refl, u, ==→≡ i j)
        ];
      }
