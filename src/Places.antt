-- ===== src/Places.antt =====
-- Queues that hold exactly once each transaction that is in them.
use database_concurrency_con.Prelude.{
  ℕ, ◌≡◌, ◌≢◌, refl, true, false, List, [], ◌∷◌, ◌++◌, contains, contains-append, Distinct,
  Distinct-snoc, update, Bool-cases, inl, inr, ◌==◌, ==→≡, ==_self, arith,
}

-- No transaction is in the queue twice, and all are at the place that the queue stands for.
abbrev pub Holds : {P : Type 0} → P → List ℕ → (ℕ → P) → Type 0
Holds p q place = Distinct q × ((j : ℕ) → contains j q ≡ true → place j ≡ p)

module _ {P : Type 0} (p : P) (q : List ℕ) (place : ℕ → P) (t : ℕ) where
  pub absent : place t ≢ p → Holds p q place → contains t q ≡ false
  absent away (_, at_p) = elim (Bool-cases (contains t q)) [
    | inl e ↦ absurd (away (at_p t e))
    | inr e ↦ e
  ]

  pub kept :
      (p' : P)
      → contains t q ≡ false
      → Holds p q place
      → (j : ℕ) → contains j q ≡ true
      → update place t p' j ≡ p
  kept p' out (_, at_p) j e = elim (Bool-cases (t == j)) [
    | inl here ↦ ground (arith, ==→≡ t j here, e, out)
    | inr there ↦ rw there (at_p j e)
  ]

  -- A transaction moves from another place to another place.
  pub Holds-move : (p' : P) → place t ≢ p → Holds p q place → Holds p q (update place t p')
  Holds-move p' away h = (h.0, kept p' (absent away h) h)

  -- A transaction moves into the queue.
  pub Holds-push : place t ≢ p → Holds p q place → Holds p (q ++ t ∷ []) (update place t p)
  Holds-push away h =
      let out = absent away h in
      (
        Distinct-snoc q t out h.0,
        λ j e. elim (Bool-cases (t == j)) [
          | inl here ↦ rw here refl
          | inr there ↦ kept p out h j (ground (arith, contains-append j q (t ∷ []), e))
        ],
      )

  -- The transaction in front moves away.
  pub Holds-pop : (p' : P) → Holds p (t ∷ q) place → Holds p q (update place t p')
  Holds-pop p' (d, at_p) = (d.1, kept p' d.0 (d.1, λ j e. at_p j (ground (arith, e))))

-- The transaction in front goes to the end.
pub Holds-rotate :
    {P : Type 0} (p : P) (q : List ℕ) (place : ℕ → P) (t : ℕ)
    → Holds p (t ∷ q) place
    → Holds p (q ++ t ∷ []) (update place t p)
Holds-rotate p q place t (d, at_p) = (
  Distinct-snoc q t d.0 d.1,
  λ j e. elim (Bool-cases (t == j)) [
    | inl here ↦ rw here refl
    | inr there ↦ rw there (at_p j (ground (arith, contains-append j q (t ∷ []), e)))
  ],
)

-- Exactly those that are at the place are in the queue, each once.
abbrev pub Lists : {P : Type 0} → P → List ℕ → (ℕ → P) → Type 0
Lists p q place = Holds p q place × ((j : ℕ) → place j ≡ p → contains j q ≡ true)

module _ {P : Type 0} (p : P) (q : List ℕ) (place : ℕ → P) (t : ℕ) where
  pub Lists-move : (p' : P) → place t ≢ p → p' ≢ p → Lists p q place → Lists p q (update place t p')
  Lists-move p' away away' (h, all) = (
    Holds-move p q place t p' away h,
    λ j e. elim (Bool-cases (t == j)) [
      | inl here ↦ absurd (away' (rw here at e))
      | inr there ↦ all j (rw there at e)
    ],
  )

  pub Lists-push : place t ≢ p → Lists p q place → Lists p (q ++ t ∷ []) (update place t p)
  Lists-push away (h, all) = (
    Holds-push p q place t away h,
    λ j e. elim (Bool-cases (t == j)) [
      | inl here ↦ ground (arith, contains-append j q (t ∷ []), ==→≡ t j here, ==_self j)
      | inr there ↦
          let old = all j (rw there at e) in ground (arith, contains-append j q (t ∷ []), old)
    ],
  )

  pub Lists-pop : (p' : P) → p' ≢ p → Lists p (t ∷ q) place → Lists p q (update place t p')
  Lists-pop p' away' (h, all) = (
    Holds-pop p q place t p' h,
    λ j e. elim (Bool-cases (t == j)) [
      | inl here ↦ absurd (away' (rw here at e))
      | inr there ↦
          let old = all j (rw there at e) in ground (arith, old, there, ==→≡ j t, ==_self t)
    ],
  )
