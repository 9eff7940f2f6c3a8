-- ===== src/ThreadPool/DynamicPool/Takings.antt =====
-- DynamicThreadPool: a call that takes or makes a thread keeps the invariant.
use database_concurrency_con.Prelude.{
  ℕ, ◌+◌, ◌<◌, ◌≤◌, ◌≡◌, ◌≢◌, refl, sym, ◌∙◌, true, false, List, ◌∷◌, none, some, update, arith,
  Bool-cases, inl, inr, ◌==◌, ==→≡, ==_self,
}
use database_concurrency_con.Places.{Lists, Lists-move, Lists-pop}
use database_concurrency_con.ThreadPool.DynamicPool.{
  Call, unmade, counting, asserting, uncreated, idle, reserved, System, pops, makes,
}
use database_concurrency_con.ThreadPool.DynamicPool.Views.{
  slot, reserving, is_early, locked_by, is_cleared, refits, pending-slot,
}
use database_concurrency_con.ThreadPool.DynamicPool.Invariant.{Inv}

module _ (t i : ℕ) (s : System) (inv : Inv s) where
  -- The call `t` takes the thread `i`, which has no task, for itself.
  reserves-Inv :
      (available_threads : List ℕ) (created : ℕ) (c : Call)
      → s.call t ≡ unmade
      → reserving c ≡ some i
      → is_early c ≡ true
      → locked_by c ≡ none
      → slot (s.use_of i) ≡ none
      → is_cleared (s.use_of i) ≡ false
      → ((a : ℕ) → s.use_of i ≢ reserved a)
      → Lists idle available_threads (update s.use_of i (reserved t))
      → ((j : ℕ) → created ≤ j → ((i == j) ≡ false) × (s.use_of j ≡ uncreated))
      → ((j : ℕ) → j < created → (i == j) ≡ false → s.use_of j ≢ uncreated)
      → Inv (record s {
        available_threads = available_threads;
        created = created;
        call = update s.call t c;
        use_of = update s.use_of i (reserved t);
      })
  reserves-Inv av created c e res early unlocked empty fit other idle_ones unused used = record {
    available = idle_ones;
    unmade_from = λ j lt. let (h, old) = unused j lt in rw h old;
    made_below = λ j lt e'. elim (Bool-cases (i == j)) [
      | inl h ↦ ground (arith, rw h at e')
      | inr h ↦ used j lt h (rw h at e')
    ];
    slots = λ j. elim (Bool-cases (i == j)) [
      | inl h ↦ rw (h, sym (==→≡ i j h)) (inv.slots i ∙ empty)
      | inr h ↦ rw h (inv.slots j)
    ];
    has_thread = λ a j e'. elim (Bool-cases (t == a)) [
      | inl h ↦ ground (arith, rw h at e', res, ==→≡ t a h, ==_self i)
      | inr h ↦ ground (arith, inv.has_thread a j (rw h at e'), other a, ==→≡ i j)
    ];
    stages = λ j. elim (Bool-cases (i == j)) [
      | inl h ↦
          rw (h, sym (==→≡ i j h))
            (refits (s.stage i) (s.use_of i) (reserved t) empty fit refl (inv.stages i)).0
      | inr h ↦ rw h (inv.stages j)
    ];
    thread_locks = inv.thread_locks;
    thread_locked = inv.thread_locked;
    call_locks = λ a j e'. elim (Bool-cases (t == a)) [
      | inl h ↦ ground (arith, rw h at e', unlocked)
      | inr h ↦ inv.call_locks a j (rw h at e')
    ];
    call_locked = λ a j e'. elim (Bool-cases (t == a)) [
      | inl h ↦ ground (arith, inv.call_locked a j e', ==→≡ t a h, e)
      | inr h ↦ rw h (inv.call_locked a j e')
    ];
    wakers = λ j a e' u. elim (Bool-cases (i == j)) [
      | inl h ↦ ground (arith, rw h at u)
      | inr h ↦ let old = inv.wakers j a e' (rw h at u) in ground (arith, old, e, ==→≡ t a)
    ];
    run_all = inv.run_all;
    early = λ a e'. elim (Bool-cases (t == a)) [
      | inl h ↦ inv.early a (rw (sym (==→≡ t a h), e) refl)
      | inr h ↦ inv.early a (rw h at e')
    ];
    late = λ a e'. elim (Bool-cases (t == a)) [ inl h ↦ rw h early | inr h ↦ rw h (inv.late a e') ];
    pending_at = λ j a e'. elim (Bool-cases (i == j)) [
      | inl h ↦ ground (arith, rw h at e', pending-slot (s.stage j) (reserved t) refl)
      | inr h ↦ inv.pending_at j a (rw h at e')
    ];
    at_pending = λ j a e'. elim (Bool-cases (i == j)) [
      | inl h ↦ ground (
        arith,
        rw (sym (==→≡ i j h)) at (inv.at_pending j a e'),
        pending-slot (s.stage i) (s.use_of i) empty,
      )
      | inr h ↦ rw h (inv.at_pending j a e')
    ];
  }

pub pops-Inv :
    (t i : ℕ) (q : List ℕ) (s : System)
    → Inv s
    → s.call t ≡ unmade
    → s.available_threads ≡ i ∷ q
    → Inv (pops t i q s)
pops-Inv t i q s inv e front =
    let all = rw front at inv.available in
    let u : s.use_of i ≡ idle = all.0.1 i (ground (arith, ==_self i)) in
    reserves-Inv t i s inv q s.created (asserting i) e refl refl refl (rw u refl) (rw u refl)
      (λ a e'. ground (arith, u, e'))
      (Lists-pop idle q s.use_of i (reserved t) (λ e'. ground (arith, e')) all)
      (λ j lt. let old = inv.unmade_from j lt in (ground (arith, old, u, ==→≡ i j), old))
      (λ j lt h. inv.made_below j lt)

pub makes-Inv : (t : ℕ) (s : System) → Inv s → s.call t ≡ unmade → Inv (makes t s)
makes-Inv t s inv e =
    let u = inv.unmade_from s.created (ground arith) in
    reserves-Inv t s.created s inv s.available_threads (s.created + 1) (counting s.created) e refl
      refl refl (rw u refl) (rw u refl) (λ a e'. ground (arith, u, e'))
      (Lists-move idle s.available_threads s.use_of s.created (reserved t)
        (λ e'. ground (arith, u, e')) (λ e'. ground (arith, e')) inv.available)
      (λ j lt. (ground (arith, ==→≡ s.created j), inv.unmade_from j (ground arith)))
      (λ j lt h. inv.made_below j (ground (arith, h, ==_self j)))
