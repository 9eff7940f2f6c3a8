-- ===== src/Processor/Exclusive/Views.antt =====
-- What the transactions hold and wait for, by their places and by `ready_txns_`; and the loops that
-- release the locks of a transaction.
use database_concurrency_con.Prelude.{
  ℕ, ◌≡◌, refl, ap, sym, subst, Bool, true, false, ◌&&◌, not, List, [], ◌∷◌, ◌++◌, some, arith,
  contains, contains-append, Distinct, Distinct-snoc, Bool-cases, List-cases, inl, inr,
  if◌then◌else◌, ◌==◌, ==→≡, ==_self,
}
use database_concurrency_con.LockManager.Requests.{Tables}
use database_concurrency_con.LockManager.ManagerA.Locks.{set_queue}
use database_concurrency_con.LockManager.Implementations.{manager_a}
use database_concurrency_con.Processor.Locking.{release_all}
use database_concurrency_con.Processor.Workers.{
  Place, outside, requested, locking, queued, executed, reading,
}
use database_concurrency_con.Places.{Holds}
use database_concurrency_con.Processor.Exclusive.Orderly.{only, IsOrderly}
use database_concurrency_con.Processor.Exclusive.Wakes.{
  dropped, gained, served, wake, release-last, release-wakes,
}

-- Whether a transaction has its locks; `ready` says whether it is in `ready_txns_`.
abbrev pub has : Place → Bool → Bool
has outside ready = false
has requested ready = false
has locking ready = ready
has queued ready = true
has executed ready = true
has (reading ks) ready = true

-- Whether it waits for its lock.
abbrev pub wants : Place → Bool → Bool
wants outside ready = false
wants requested ready = false
wants locking ready = not ready
wants queued ready = false
wants executed ready = false
wants (reading ks) ready = false

wants-locking : (p : Place) (ready : Bool) → wants p ready ≡ true → (p ≡ locking) × (ready ≡ false)
wants-locking outside ready e = ground (arith, e)
wants-locking requested ready e = ground (arith, e)
wants-locking locking true e = ground (arith, e)
wants-locking locking false e = (refl, refl)
wants-locking queued ready e = ground (arith, e)
wants-locking executed ready e = ground (arith, e)
wants-locking (reading ks) ready e = ground (arith, e)

only-contains : (j k : ℕ) (ks : List ℕ) → only k ks ≡ true → contains j ks ≡ (j == k)
only-contains j k [] e = ground (arith, e)
only-contains j k (i ∷ []) e = rw (==→≡ k i e) (ground arith)
only-contains j k (i ∷ i' ∷ ks) e = ground (arith, e)

module _ (keys : ℕ → List ℕ) (place : ℕ → Place) where
  abbrev pub held_at : List ℕ → ℕ → ℕ → Bool
  held_at ready a j = has (place a) (contains a ready) && contains j (keys a)

  abbrev pub wanted_at : List ℕ → ℕ → ℕ → Bool
  wanted_at ready a j = wants (place a) (contains a ready) && only j (keys a)

  -- What is held when `t` holds `rest` only.
  abbrev pub held_but : ℕ → List ℕ → List ℕ → ℕ → ℕ → Bool
  held_but t rest ready a j = if a == t then contains j rest else held_at ready a j

  pub IsOrderly-same :
      (held held' wanted wanted' : ℕ → ℕ → Bool) (s : Tables)
      → ((a j : ℕ) → held' a j ≡ held a j)
      → ((a j : ℕ) → wanted' a j ≡ wanted a j)
      → IsOrderly keys held wanted s
      → IsOrderly keys held' wanted' s
  IsOrderly-same held held' wanted wanted' s h w =
      subst (λ (p : (ℕ → ℕ → Bool) × (ℕ → ℕ → Bool)). IsOrderly keys p.0 p.1 s)
        (λ i. (λ a j. sym (h a j) i, λ a j. sym (w a j) i))

  module _ (t : ℕ) (there : place t ≡ executed) where
    drop_same :
        (k : ℕ) (ks ready : List ℕ)
        → contains k ks ≡ false
        → (a j : ℕ) → held_but t ks ready a j ≡ dropped (held_but t (k ∷ ks) ready) t k a j
    drop_same k ks ready out a j = elim (Bool-cases (j == k)) [
      | inl e ↦ ground (arith, e, rw (sym (==→≡ j k e)) at out)
      | inr e ↦ ground (arith, e)
    ]

    other_place :
        (r k : ℕ) (ready : List ℕ)
        → wanted_at ready r k ≡ true
        → (place r ≡ locking)
          × (contains r ready ≡ false)
          × (only k (keys r) ≡ true)
          × ((r == t) ≡ false)
    other_place r k ready w =
        let (at_lm, not_ready) = wants-locking (place r) (contains r ready) (ground (arith, w)) in
        (
          at_lm,
          not_ready,
          ground (arith, w),
          elim (Bool-cases (r == t)) [
            | inl e ↦ ground (arith, at_lm, there, ap place (==→≡ r t e))
            | inr e ↦ e
          ],
        )

    wake_same :
        (r k : ℕ) (ks ready : List ℕ)
        → contains k ks ≡ false
        → wanted_at ready r k ≡ true
        → (a j : ℕ)
        → held_but t ks (ready ++ r ∷ []) a j
          ≡ gained (dropped (held_but t (k ∷ ks) ready) t k) r k a j
    wake_same r k ks ready out w a j =
        let (at_lm, not_ready, one, apart) = other_place r k ready w in
        elim (Bool-cases (a == r)) [
          | inl e ↦
              rw (==→≡ a r e, at_lm)
                (ground (
                  arith,
                  ==_self r,
                  apart,
                  not_ready,
                  contains-append r ready (r ∷ []),
                  only-contains j k (keys r) one,
                ))
          | inr e ↦
              ground (arith, e, contains-append a ready (r ∷ []), drop_same k ks ready out a j)
        ]

    served_same :
        (r k : ℕ) (ready : List ℕ)
        → wanted_at ready r k ≡ true
        → (a j : ℕ) → wanted_at (ready ++ r ∷ []) a j ≡ served (wanted_at ready) r a j
    served_same r k ready w a j =
        let (at_lm, not_ready, one, apart) = other_place r k ready w in
        elim (Bool-cases (a == r)) [
          | inl e ↦
              rw (==→≡ a r e, at_lm) (ground (arith, ==_self r, contains-append r ready (r ∷ [])))
          | inr e ↦ ground (arith, e, contains-append a ready (r ∷ []))
        ]

    -- The loops release keys whose deques the transaction is in front of: it holds none of them
    -- afterwards, and who was next in line is ready.
    pub release_all-IsOrderly :
        (ks : List ℕ) (s : Tables)
        → Distinct ks
        → Holds locking s.ready_txns place
        → IsOrderly keys (held_but t ks s.ready_txns) (wanted_at s.ready_txns) s
        → (s' : Tables) × (release_all manager_a t ks s ≡ some s')
          × Holds locking s'.ready_txns place
          × IsOrderly keys (held_but t [] s'.ready_txns) (wanted_at s'.ready_txns) s'
    unfolding release_all
    release_all-IsOrderly [] s d h o = (s, refl, h, o)
    release_all-IsOrderly (k ∷ ks) s d h o =
        let held = held_but t (k ∷ ks) s.ready_txns in
        let wanted = wanted_at s.ready_txns in
        let (q, e) = o.fronts t k (ground (arith, ==_self t, ==_self k)) in
        elim (List-cases q) [
          | inl last ↦
              let (ran, o₁) = release-last keys held wanted t k s (rw last at e) o in
              let s₁ = set_queue k [] s in
              let (s', rest, h', o') = release_all-IsOrderly ks s₁ d.1 h (
                IsOrderly-same (dropped held t k) _ wanted _ s₁ (drop_same k ks s.ready_txns d.0)
                  (λ a j. refl) o₁) in
              (s', rw ran rest, h', o')
          | inr (r, q', next) ↦
              let (ran, w, o₁) = release-wakes keys held wanted t k s r q' (rw next at e) o in
              let s₁ = wake r.txn k (r ∷ q') s in
              let (at_lm, not_ready, one, apart) = other_place r.txn k s.ready_txns w in
              let h₁ : Holds locking (s.ready_txns ++ r.txn ∷ []) place = (
                Distinct-snoc s.ready_txns r.txn not_ready h.0,
                λ j m. elim (Bool-cases (j == r.txn)) [
                  | inl e ↦ rw (==→≡ j r.txn e) at_lm
                  | inr e ↦
                      h.1 j (ground (arith, m, e, contains-append j s.ready_txns (r.txn ∷ [])))
                ],
              ) in
              let (s', rest, h', o') = release_all-IsOrderly ks s₁ d.1 h₁ (
                IsOrderly-same (gained (dropped held t k) r.txn k) _ (served wanted r.txn) _ s₁
                  (wake_same r.txn k ks s.ready_txns d.0 w) (served_same r.txn k s.ready_txns w)
                  o₁) in
              (s', rw ran rest, h', o')
        ]
