-- ===== src/Processor/Exclusive/Moves.antt =====
-- LockManagerA: the tables stay orderly when a transaction moves.
use database_concurrency_con.Prelude.{
  ℕ, ◌≡◌, refl, sym, Bool, false, List, [], ◌∷◌, ◌++◌, some, Option-cases, arith, contains,
  contains-append, Distinct, Bool-cases, inl, inr, ◌==◌, ==→≡, ==_self, update,
}
use database_concurrency_con.LockManager.Requests.{Tables}
use database_concurrency_con.LockManager.ManagerA.{release}
use database_concurrency_con.LockManager.Implementations.{manager_a}
use database_concurrency_con.Processor.Locking.{◌>>=◌, release_all}
use database_concurrency_con.Processor.Workers.{
  Place, outside, requested, locking, queued, executed,
}
use database_concurrency_con.Places.{Holds}
use database_concurrency_con.Processor.Exclusive.Orderly.{only, IsOrderly}
use database_concurrency_con.Processor.Exclusive.Acquires.{Taken, Refused}
use database_concurrency_con.Processor.Exclusive.Arrivals.{
  Idle, granted-IsOrderly, Refused-IsOrderly, Waits-IsOrderly,
}
use database_concurrency_con.Processor.Exclusive.Starts.{Waits}
use database_concurrency_con.Processor.Exclusive.Views.{
  has, wants, held_at, wanted_at, held_but, IsOrderly-same, release_all-IsOrderly,
}

-- The tables are orderly for the places.
abbrev pub IsOrderlyAt : (ℕ → List ℕ) → (ℕ → Place) → List ℕ → Tables → Type 0
IsOrderlyAt keys place ready =
    IsOrderly keys (held_at keys place ready) (wanted_at keys place ready)

-- `ready_txns_` is no part of what is orderly.
pub ready-IsOrderly :
    (keys : ℕ → List ℕ) (held wanted : ℕ → ℕ → Bool) (s : Tables) (ready : List ℕ)
    → IsOrderly keys held wanted s
    → IsOrderly keys held wanted (record s { ready_txns = ready })
ready-IsOrderly keys held wanted s ready o = record {
  deques = o.deques;
  fronts = o.fronts;
  waiting = o.waiting;
  resting = o.resting;
}

pub release_all-append :
    (t : ℕ) (ks js : List ℕ) (s : Tables)
    → release_all manager_a t (ks ++ js) s
      ≡ (release_all manager_a t ks s >>= release_all manager_a t js)
unfolding release_all
release_all-append t [] js s = refl
release_all-append t (k ∷ ks) js s = elim (Option-cases (release t k s)) [
  | inl e ↦ rw e refl
  | inr (s', e) ↦ rw e (release_all-append t ks js s')
]

module _ (keys : ℕ → List ℕ) (place : ℕ → Place) (t : ℕ) where
  -- A move that changes neither what the transaction holds nor what it waits for.
  pub move-IsOrderly :
      (p : Place) (ready : List ℕ) (s : Tables)
      → has p (contains t ready) ≡ has (place t) (contains t ready)
      → wants p (contains t ready) ≡ wants (place t) (contains t ready)
      → IsOrderlyAt keys place ready s
      → IsOrderlyAt keys (update place t p) ready s
  move-IsOrderly p ready s h w =
      IsOrderly-same keys place _ _ _ _ s
        (λ a j. elim (Bool-cases (t == a)) [
          | inl e ↦ rw (sym (==→≡ t a e), ==_self t, h) refl
          | inr e ↦ rw e refl
        ])
        (λ a j. elim (Bool-cases (t == a)) [
          | inl e ↦ rw (sym (==→≡ t a e), ==_self t, w) refl
          | inr e ↦ rw e refl
        ])

  -- The first of the ready transactions is handed to the pool.
  pub hand-IsOrderly :
      (q : List ℕ) (s : Tables)
      → place t ≡ locking
      → IsOrderlyAt keys place (t ∷ q) s
      → IsOrderlyAt keys (update place t queued) q s
  hand-IsOrderly q s at_lm =
      IsOrderly-same keys place _ _ _ _ s
        (λ a j. elim (Bool-cases (t == a)) [
          | inl e ↦ rw (sym (==→≡ t a e), ==_self t, at_lm) (ground (arith, ==_self t))
          | inr e ↦ rw e (ground (arith, e, ==→≡ a t, ==_self t))
        ])
        (λ a j. elim (Bool-cases (t == a)) [
          | inl e ↦ rw (sym (==→≡ t a e), ==_self t, at_lm) (ground (arith, ==_self t))
          | inr e ↦ rw e (ground (arith, e, ==→≡ a t, ==_self t))
        ])

  module _ (ready : List ℕ) (s s' : Tables) (asks : place t ≡ requested) where
    pub idle_at : Idle keys (held_at keys place ready) (wanted_at keys place ready) t s s'
    idle_at j = rw asks (refl, refl)

    -- It has got its locks.
    pub grant-IsOrderly :
        Taken t (keys t) s s'
        → IsOrderlyAt keys place ready s
        → IsOrderlyAt keys (update place t locking) (ready ++ t ∷ []) s'
    grant-IsOrderly taken o =
        IsOrderly-same keys place _ _ _ _ s'
          (λ a j. elim (Bool-cases (t == a)) [
            | inl e ↦
                rw (sym (==→≡ t a e), ==_self t)
                  (ground (arith, ==_self t, contains-append t ready (t ∷ [])))
            | inr e ↦
                rw e (ground (arith, e, ==→≡ a t, ==_self t, contains-append a ready (t ∷ [])))
          ])
          (λ a j. elim (Bool-cases (t == a)) [
            | inl e ↦
                rw (sym (==→≡ t a e), ==_self t, asks)
                  (ground (arith, ==_self t, contains-append t ready (t ∷ [])))
            | inr e ↦
                rw e (ground (arith, e, ==→≡ a t, ==_self t, contains-append a ready (t ∷ [])))
          ])
          (granted-IsOrderly keys _ _ t s s' idle_at taken o)

    -- It has been refused them, and is requested again.
    pub refuse-IsOrderly :
        ((k : ℕ) → only k (keys t) ≡ false)
        → Refused t s s'
        → IsOrderlyAt keys place ready s
        → IsOrderlyAt keys (update place t requested) ready s'
    refuse-IsOrderly several refused o =
        move-IsOrderly requested ready s' (rw asks refl) (rw asks refl)
          (Refused-IsOrderly keys _ _ t s s' several refused o)

    -- It waits for its only lock.
    pub wait-IsOrderly :
        (k : ℕ)
        → keys t ≡ k ∷ []
        → contains t ready ≡ false
        → Waits t k s s'
        → IsOrderlyAt keys place ready s
        → IsOrderlyAt keys (update place t locking) ready s'
    wait-IsOrderly k one out waits o =
        IsOrderly-same keys place _ _ _ _ s'
          (λ a j. elim (Bool-cases (t == a)) [
            | inl e ↦ rw (sym (==→≡ t a e), ==_self t, asks) (ground (arith, ==_self t, out))
            | inr e ↦ rw e refl
          ])
          (λ a j. elim (Bool-cases (t == a)) [
            | inl e ↦ rw (sym (==→≡ t a e), ==_self t, one, out) refl
            | inr e ↦ rw e (ground (arith, e, ==→≡ a t, ==_self t))
          ])
          (Waits-IsOrderly keys _ _ t s s' k one idle_at waits o)

  -- It has been executed, and releases all its locks.
  pub leave-IsOrderly :
      (s : Tables)
      → place t ≡ executed
      → Distinct (keys t)
      → Holds locking s.ready_txns place
      → IsOrderlyAt keys place s.ready_txns s
      → (s' : Tables) × (release_all manager_a t (keys t) s ≡ some s')
        × Holds locking s'.ready_txns place
        × IsOrderlyAt keys (update place t outside) s'.ready_txns s'
  leave-IsOrderly s ran d h o =
      let o₁ =
        IsOrderly-same keys place _ (held_but keys place t (keys t) s.ready_txns) _
          (wanted_at keys place s.ready_txns) s
          (λ a j. elim (Bool-cases (a == t)) [
            | inl e ↦ rw (==→≡ a t e, ==_self t, ran) refl
            | inr e ↦ rw e refl
          ])
          (λ a j. refl) o in
      let (s', releases, h', o') = release_all-IsOrderly keys place t ran (keys t) s d h o₁ in
      (
        s',
        releases,
        h',
        IsOrderly-same keys place _ _ _ _ s'
            (λ a j. elim (Bool-cases (t == a)) [
              | inl e ↦ rw (sym (==→≡ t a e), ==_self t) refl
              | inr e ↦ rw e (ground (arith, e, ==→≡ a t, ==_self t))
            ])
            (λ a j. elim (Bool-cases (t == a)) [
              | inl e ↦ rw (sym (==→≡ t a e), ==_self t, ran) refl
              | inr e ↦ rw e refl
            ])
            o',
      )
