-- ===== src/Processor/Exclusive/Orderly.antt =====
-- LockManagerA: tables in which who is in front of a deque holds the key, and all behind wait for it.
use database_concurrency_con.Prelude.{
  ℕ, ◌≡◌, refl, ◌∙◌, sym, Bool, true, false, List, [], ◌∷◌, none, some, arith, All, contains,
  Distinct, Bool-cases, inl, inr, ◌==◌, ==→≡, ==_self, pos,
}
use database_concurrency_con.LockManager.Requests.{
  exclusive, LockRequest, request, txns_of, Tables, queue,
}

-- `k` is the only key.
abbrev pub only : ℕ → List ℕ → Bool
only k [] = false
only k (j ∷ []) = k == j
only k (i ∷ j ∷ ks) = false

abbrev pub Behind : (ℕ → ℕ → Bool) → ℕ → LockRequest → Type 0
Behind wanted k r = (r.mode ≡ exclusive) × (wanted r.txn k ≡ true)

abbrev pub IsDeque : (ℕ → ℕ → Bool) → (ℕ → ℕ → Bool) → ℕ → List LockRequest → Type 0
IsDeque held wanted k [] = Unit
IsDeque held wanted k (r ∷ q) =
    (r.mode ≡ exclusive)
    × (held r.txn k ≡ true)
    × All (Behind wanted k) q
    × Distinct (txns_of (r ∷ q))

-- `held t k`: the transaction holds the key. `wanted t k`: it waits for the key, its only one.
pub record IsOrderly (keys : ℕ → List ℕ) (held wanted : ℕ → ℕ → Bool) (s : Tables) : Type 0 where
  pub deques : (k : ℕ) → IsDeque held wanted k (queue s k)
  pub fronts :
      (t k : ℕ) → held t k ≡ true → (q : List LockRequest) × (queue s k ≡ request exclusive t ∷ q)
  pub waiting :
      (t k : ℕ)
      → wanted t k ≡ true
      → ((j : ℕ) → held t j ≡ false) × (s.txn_waits t ≡ some (pos 1)) × (only k (keys t) ≡ true)
  pub resting : (t k : ℕ) → only k (keys t) ≡ true → wanted t k ≡ false → s.txn_waits t ≡ none

pub only-once : (j k : ℕ) (ks : List ℕ) → only j ks ≡ true → only k ks ≡ true → j ≡ k
only-once j k [] e e' = ground (arith, e)
only-once j k (i ∷ []) e e' = ==→≡ j i e ∙ sym (==→≡ k i e')
only-once j k (i ∷ i' ∷ ks) e e' = ground (arith, e)

pub All-Behind :
    (wanted wanted' : ℕ → ℕ → Bool) (k : ℕ) (q : List LockRequest)
    → ((t : ℕ) → contains t (txns_of q) ≡ true → wanted t k ≡ true → wanted' t k ≡ true)
    → All (Behind wanted k) q
    → All (Behind wanted' k) q
All-Behind wanted wanted' k [] h all = tt
All-Behind wanted wanted' k (r ∷ q) h all = (
  (all.0.0, h r.txn (ground (arith, ==_self r.txn)) all.0.1),
  All-Behind wanted wanted' k q (λ t e. h t (ground (arith, e))) all.1,
)

-- A deque stays orderly while those in it keep what they hold and what they wait for.
pub IsDeque-keep :
    (held held' wanted wanted' : ℕ → ℕ → Bool) (k : ℕ) (q : List LockRequest)
    → ((t : ℕ) → contains t (txns_of q) ≡ true → held t k ≡ true → held' t k ≡ true)
    → ((t : ℕ) → contains t (txns_of q) ≡ true → wanted t k ≡ true → wanted' t k ≡ true)
    → IsDeque held wanted k q
    → IsDeque held' wanted' k q
IsDeque-keep held held' wanted wanted' k [] h w d = tt
IsDeque-keep held held' wanted wanted' k (r ∷ q) h w (mode, front, behind, distinct) = (
  mode,
  h r.txn (ground (arith, ==_self r.txn)) front,
  All-Behind wanted wanted' k q (λ t e. w t (ground (arith, e))) behind,
  distinct,
)

-- Who is in no deque: a transaction that holds nothing and waits for nothing.
pub absent_idle :
    (held wanted : ℕ → ℕ → Bool) (t k : ℕ) (q : List LockRequest)
    → IsDeque held wanted k q
    → held t k ≡ false
    → wanted t k ≡ false
    → contains t (txns_of q) ≡ false
absent_idle held wanted t k [] d h w = refl
absent_idle held wanted t k (r ∷ q) (mode, front, behind, distinct) h w =
    elim (Bool-cases (t == r.txn)) [
      | inl e ↦ ground (arith, rw (==→≡ t r.txn e) at h, front)
      | inr e ↦ ground (arith, e, go q behind)
    ]
  where
    go : (q : List LockRequest) → All (Behind wanted k) q → contains t (txns_of q) ≡ false
    go [] all = refl
    go (r ∷ q) all = elim (Bool-cases (t == r.txn)) [
      | inl e ↦ ground (arith, rw (==→≡ t r.txn e) at w, all.0.1)
      | inr e ↦ ground (arith, e, go q all.1)
    ]
