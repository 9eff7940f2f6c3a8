-- ===== src/TxnTypes/Random/Ends.antt =====
-- txn/txn_types.h: the constructor of RMW that picks its sets at random ends, with proper sets.
use database_concurrency_con.Prelude.{
  ℕ, zero, suc, ◌+◌, ◌%◌, ◌<◌, ◌≤◌, ◌≡◌, refl, ap, ◌∙◌, true, false, List, [], ◌∷◌, ◌++◌, some,
  arith, All, contains, length, insert, contains-insert, length-insert, insert-Distinct, Distinct,
  Bool-cases, inl, inr, ◌==◌, ==→≡, leb, ◌⊎◌, ==_self, contains-append, done,
}
use native.Mathlib.Nat.{mod-lt}
use database_concurrency_con.TxnTypes.{new_rmw}
use database_concurrency_con.TxnTypes.Random.{find_key, find_keys, random_rmw}
use database_concurrency_con.TxnTypes.Random.Draws.{
  Enough, some_unused, find_key-finds, Enough-append, Enough-same,
}

-- What a `for` loop makes of a set: so many keys more, each below `dbsize` and not in the other set.
abbrev Grows : ℕ → ℕ → List ℕ → List ℕ → List ℕ → Type 0
Grows dbsize n others keys keys' =
    (length keys' ≡ length keys + n)
    × Distinct keys'
    × ((j : ℕ)
        → contains j keys' ≡ true
        → (contains j keys ≡ true) ⊎ ((contains j others ≡ false) × (j < dbsize)))

find_keys_next :
    (dbsize n : ℕ) (others keys rs : List ℕ) (key : ℕ) (rs' : List ℕ)
    → find_key dbsize others keys rs ≡ some (key, rs')
    → find_keys dbsize (suc n) others keys rs ≡ find_keys dbsize n others (insert key keys) rs'
unfolding find_keys
find_keys_next dbsize n others keys rs key rs' e = rw (find_keys, e) refl

find_keys-Grows :
    (dbsize n m : ℕ) (others keys rs : List ℕ)
    → length others + length keys + n ≤ dbsize
    → Distinct keys
    → Enough dbsize (n + m) rs
    → (keys' rs' : List ℕ) × (find_keys dbsize n others keys rs ≡ some (keys', rs'))
      × Enough dbsize m rs'
      × Grows dbsize n others keys keys'
unfolding find_keys
find_keys-Grows dbsize zero m others keys rs small d enough = (
  keys,
  rs,
  refl,
  Enough-same dbsize (zero + m) m rs (omega arith) enough,
  (omega arith, d, λ j h. inl h),
)
find_keys-Grows dbsize (suc n) m others keys rs small d enoughs =
    let (part, more, e, covers, enough) =
      Enough-same dbsize (suc n + m) (suc (n + m)) rs (omega arith) enoughs in
    let unused = some_unused dbsize others keys part covers (omega (arith, small)) in
    let (r, rest, found, new) = find_key-finds dbsize others keys part more unused in
    let key = r % dbsize in
    let below : key < dbsize = mod-lt r (omega (arith, small)) in
    let out : contains key keys ≡ false = ground (arith, new) in
    let long = length-insert key keys out in
    let (keys', rs', ran, left, (size, distinct, each)) =
      find_keys-Grows dbsize n m others (insert key keys) (rest ++ more)
        (omega (arith, small, long)) (insert-Distinct key keys out d)
        (Enough-append dbsize (n + m) rest more enough) in
    (
      keys',
      rs',
      find_keys_next dbsize n others keys rs key (rest ++ more)
            (ap (find_key dbsize others keys) e ∙ found)
          ∙ ran,
      left,
      (
        omega (arith, size, long),
        distinct,
        λ j h. elim (each j h) [
          | inr fresh ↦ inr fresh
          | inl old ↦ elim (Bool-cases (j == key)) [
            | inl same ↦ rw (==→≡ j key same) (inr (ground (arith, new), below))
            | inr other ↦ inl (ground (arith, old, other, contains-insert j key keys))
          ]
        ],
      ),
    )

Distinct-append :
    (ks js : List ℕ)
    → Distinct ks
    → Distinct js
    → ((j : ℕ) → contains j js ≡ true → contains j ks ≡ false)
    → Distinct (ks ++ js)
Distinct-append [] js d d' apart = d'
Distinct-append (k ∷ ks) js d d' apart = (
  elim (Bool-cases (contains k js)) [
    | inl e ↦ ground (arith, apart k e, ==_self k)
    | inr e ↦ ground (arith, e, d.0, contains-append k ks js)
  ],
  Distinct-append ks js d.1 d' (λ j h. ground (arith, apart j h)),
)

All-intro : (P : ℕ → Type 0) (ks : List ℕ) → ((j : ℕ) → contains j ks ≡ true → P j) → All P ks
All-intro P [] h = tt
All-intro P (k ∷ ks) h =
    (h k (ground (arith, ==_self k)), All-intro P ks (λ j m. h j (ground (arith, m))))

-- If `dbsize` is not below the sum of the sizes, and `rand()` has given every key below `dbsize`
-- anew for each key that is wanted, the constructor of RMW ends, with sets of the two sizes, which
-- have no key in common and only keys below `dbsize`.
pub random_rmw-ends :
    (dbsize readsetsize writesetsize time : ℕ) (rs : List ℕ)
    → readsetsize + writesetsize ≤ dbsize
    → Enough dbsize (readsetsize + writesetsize) rs
    → (readset writeset rs' : List ℕ) × (random_rmw dbsize readsetsize writesetsize time rs
        ≡ done (some (new_rmw readset writeset time, rs')))
      × (length readset ≡ readsetsize)
      × (length writeset ≡ writesetsize)
      × Distinct (readset ++ writeset)
      × All (λ k. k < dbsize) (readset ++ writeset)
unfolding random_rmw
random_rmw-ends dbsize n m time rs fits enough =
    let (reads, rs₁, ran₁, left₁, (size₁, d₁, each₁)) =
      find_keys-Grows dbsize n m [] [] rs (omega (arith, fits)) tt enough in
    let (writes, rs₂, ran₂, left₂, (size₂, d₂, each₂)) =
      find_keys-Grows dbsize m zero reads [] rs₁ (omega (arith, fits, size₁)) tt
        (Enough-same dbsize m (m + zero) rs₁ (omega arith) left₁) in
    let new₁ : (j : ℕ) → contains j reads ≡ true → j < dbsize = λ j h. elim (each₁ j h) [
      | inl none_before ↦ ground (arith, none_before)
      | inr fresh ↦ fresh.1
    ] in
    let new₂ : (j : ℕ) → contains j writes ≡ true → (contains j reads ≡ false) × (j < dbsize) =
      λ j h. elim (each₂ j h) [
        | inl none_before ↦ ground (arith, none_before)
        | inr fresh ↦ fresh
      ] in
    let ok : leb (n + m) dbsize ≡ true = ground (arith, fits) in
    (
      reads,
      writes,
      rs₂,
      rw (ok, ran₁, ran₂) refl,
      omega (arith, size₁),
      omega (arith, size₂),
      Distinct-append reads writes d₁ d₂ (λ j h. (new₂ j h).0),
      All-intro (λ k. k < dbsize) (reads ++ writes)
          (λ j h. elim (Bool-cases (contains j reads)) [
            | inl e ↦ new₁ j e
            | inr e ↦ (new₂ j (ground (arith, h, e, contains-append j reads writes))).1
          ]),
    )
