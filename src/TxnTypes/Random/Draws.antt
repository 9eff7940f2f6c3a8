-- ===== src/TxnTypes/Random/Draws.antt =====
-- txn/txn_types.h: the `do` loops of the constructor of RMW end when `rand()` gives every key.
use database_concurrency_con.Prelude.{
  ℕ, zero, suc, ◌+◌, ◌%◌, ◌<◌, ◌≤◌, ◌≡◌, refl, sym, subst, Bool, true, false, ◌||◌, List, [], ◌∷◌,
  ◌++◌, some, arith, contains, length, Bool-cases, inl, inr, if◌then◌else◌, ◌==◌, ==→≡, ◌&&◌, map,
  contains-append, length-append, append_assoc,
}
use database_concurrency_con.TxnTypes.Random.{find_key}

-- A list with one occurrence of the key less.
without : ℕ → List ℕ → List ℕ
without k [] = []
without k (j ∷ ks) = let rest = without k ks in if k == j then ks else j ∷ rest

length-without :
    (k : ℕ) (ks : List ℕ) → contains k ks ≡ true → length ks ≡ length (without k ks) + 1
unfolding without
length-without k [] h = ground (arith, h)
length-without k (j ∷ ks) h = ground (arith, h, length-without k ks)

contains-without :
    (j k : ℕ) (ks : List ℕ) → (j == k) ≡ false → contains j (without k ks) ≡ contains j ks
unfolding without
contains-without j k [] n = refl
contains-without j k (i ∷ ks) n = ground (arith, n, contains-without j k ks n)

-- A list with all numbers below `n` has at least `n` elements.
all_below : (n : ℕ) (ks : List ℕ) → ((k : ℕ) → k < n → contains k ks ≡ true) → n ≤ length ks
all_below zero ks h = omega arith
all_below (suc n) ks h =
    let less =
      all_below n (without n ks) (λ k lt. ground (arith, lt, h k, contains-without k n ks)) in
    omega (arith, less, length-without n ks (h n (omega arith)))

-- The results give every key below `dbsize` at some time.
abbrev Covers : ℕ → List ℕ → Type 0
Covers dbsize rs = (k : ℕ) → k < dbsize → contains k (map (λ r. r % dbsize) rs) ≡ true

-- The results can be cut into `n` parts, and the rest, each of which gives every key.
abbrev pub Enough : ℕ → ℕ → List ℕ → Type 0
Enough dbsize zero rs = Unit
Enough dbsize (suc n) rs =
    (part more : List ℕ) × (rs ≡ part ++ more) × Covers dbsize part × Enough dbsize n more

abbrev is_used : List ℕ → List ℕ → ℕ → Bool
is_used others keys k = contains k others || contains k keys

abbrev all_used : ℕ → List ℕ → List ℕ → List ℕ → Bool
all_used dbsize others keys [] = true
all_used dbsize others keys (r ∷ rs) =
    is_used others keys (r % dbsize) && all_used dbsize others keys rs

used_covered :
    (dbsize : ℕ) (others keys rs : List ℕ)
    → all_used dbsize others keys rs ≡ true
    → (k : ℕ) → contains k (map (λ r. r % dbsize) rs) ≡ true
    → contains k (others ++ keys) ≡ true
used_covered dbsize others keys [] h k m = ground (arith, m)
used_covered dbsize others keys (r ∷ rs) h k m = elim (Bool-cases (k == r % dbsize)) [
  | inl e ↦ rw (==→≡ k (r % dbsize) e) (ground (arith, h, contains-append (r % dbsize) others keys))
  | inr e ↦ used_covered dbsize others keys rs (ground (arith, h)) k (ground (arith, m, e))
]

-- A part that gives every key has one that is in neither set, if the sets are small enough.
pub some_unused :
    (dbsize : ℕ) (others keys rs : List ℕ)
    → Covers dbsize rs
    → length others + length keys < dbsize
    → all_used dbsize others keys rs ≡ false
some_unused dbsize others keys rs covers small =
    elim (Bool-cases (all_used dbsize others keys rs)) [
      | inl h ↦
          let big =
            all_below dbsize (others ++ keys)
              (λ k lt. used_covered dbsize others keys rs h k (covers k lt)) in
          absurd (omega (arith, big, small, length-append others keys))
      | inr h ↦ h
    ]

pub Enough-same : (dbsize i j : ℕ) (rs : List ℕ) → i ≡ j → Enough dbsize i rs → Enough dbsize j rs
Enough-same dbsize i j rs = subst (λ i. Enough dbsize i rs)

covers-append :
    (dbsize k : ℕ) (before rs : List ℕ)
    → contains k (map (λ r. r % dbsize) rs) ≡ true
    → contains k (map (λ r. r % dbsize) (before ++ rs)) ≡ true
covers-append dbsize k [] rs h = h
covers-append dbsize k (r ∷ before) rs h = ground (arith, covers-append dbsize k before rs h)

pub Enough-append :
    (dbsize n : ℕ) (before rs : List ℕ) → Enough dbsize n rs → Enough dbsize n (before ++ rs)
Enough-append dbsize zero before rs h = tt
Enough-append dbsize (suc n) before rs (part, more, e, covers, rest) = (
  before ++ part,
  more,
  rw e (sym (append_assoc before part more)),
  λ k lt. covers-append dbsize k before part (covers k lt),
  rest,
)

-- The `do` loop ends, with a key that is in neither set.
pub find_key-finds :
    (dbsize : ℕ) (others keys part more : List ℕ)
    → all_used dbsize others keys part ≡ false
    → (r : ℕ) × (rest : List ℕ) × (find_key dbsize others keys (part ++ more)
        ≡ some (r % dbsize, rest ++ more))
      × (is_used others keys (r % dbsize) ≡ false)
unfolding find_key
find_key-finds dbsize others keys [] more h = ground (arith, h)
find_key-finds dbsize others keys (r ∷ rs) more h =
    elim (Bool-cases (is_used others keys (r % dbsize))) [
      | inl e ↦
          let (r', rest, found, new) =
            find_key-finds dbsize others keys rs more (ground (arith, h, e)) in
          (r', rest, rw e found, new)
      | inr e ↦ (r, rs, rw e refl, e)
    ]
