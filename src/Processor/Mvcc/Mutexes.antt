-- ===== src/Processor/Mvcc/Mutexes.antt =====
-- txn/mvcc_storage.cc: the mutexes of the keys, and who holds them.
use database_concurrency_con.Prelude.{
  ℕ, ◌<◌, ◌≡◌, refl, ◌∙◌, sym, subst, Bool, true, false, ◌&&◌, Option, some, update, arith,
  Bool-cases, inl, inr, ◌==◌, ==→≡, ==_self, if◌then◌else◌,
}
use database_concurrency_con.MvccStorage.{record_count}

-- Exactly the mutexes that somebody holds are locked, nobody holds one that another holds, and each
-- key that the storage is initialised with has one.
pub record IsOwned (mutexes : ℕ → Option Bool) (holds : ℕ → ℕ → Bool) : Type 0 where
  pub locked : (t k : ℕ) → holds t k ≡ true → mutexes k ≡ some true
  pub owner : (k : ℕ) → mutexes k ≡ some true → (t : ℕ) × (holds t k ≡ true)
  pub unique : (t j k : ℕ) → holds t k ≡ true → holds j k ≡ true → t ≡ j
  pub exists : (k : ℕ) → k < record_count → (b : Bool) × (mutexes k ≡ some b)

-- `t` holds `k` too.
abbrev pub taken : (ℕ → ℕ → Bool) → ℕ → ℕ → ℕ → ℕ → Bool
taken holds t k a j = if a == t && j == k then true else holds a j

-- `t` does not hold `k`.
abbrev pub given : (ℕ → ℕ → Bool) → ℕ → ℕ → ℕ → ℕ → Bool
given holds t k a j = if a == t && j == k then false else holds a j

module _ (mutexes : ℕ → Option Bool) (holds : ℕ → ℕ → Bool) (t k : ℕ) where
  pub IsOwned-take :
      mutexes k ≡ some false
      → IsOwned mutexes holds
      → IsOwned (update mutexes k (some true)) (taken holds t k)
  IsOwned-take free o =
      let nobody : (a : ℕ) → holds a k ≡ false = λ a. elim (Bool-cases (holds a k)) [
        | inl e ↦ ground (arith, o.locked a k e, free)
        | inr e ↦ e
      ] in
      record {
        locked = λ a j h. elim (Bool-cases (k == j)) [
          | inl e ↦ rw e refl
          | inr e ↦ rw e (o.locked a j (ground (arith, h, e, ==→≡ j k, ==_self k)))
        ];
        owner = λ j e. elim (Bool-cases (k == j)) [
          | inl h ↦ (t, ground (arith, ==_self t, ==_self j, h, ==→≡ k j h))
          | inr h ↦ let (a, mine) = o.owner j (rw h at e) in (a, ground (arith, mine))
        ];
        unique = λ a b j h h'. elim (Bool-cases (k == j)) [
          | inl e ↦
              let at = ==→≡ k j e in
              ==→≡ a t (ground (arith, h, nobody a, at))
              ∙ sym (==→≡ b t (ground (arith, h', nobody b, at)))
          | inr e ↦
              let apart : (j == k) ≡ false = ground (arith, e, ==→≡ j k, ==_self k) in
              o.unique a b j (ground (arith, h, apart)) (ground (arith, h', apart))
        ];
        exists = λ j lt. elim (Bool-cases (k == j)) [
          | inl e ↦ (true, rw e refl)
          | inr e ↦ rw e (o.exists j lt)
        ];
      }

  pub IsOwned-give :
      holds t k ≡ true
      → IsOwned mutexes holds
      → IsOwned (update mutexes k (some false)) (given holds t k)
  IsOwned-give mine o = record {
    locked = λ a j h. elim (Bool-cases (k == j)) [
      | inl e ↦
          let at = ==→≡ k j e in
          let held : holds a k ≡ true = ground (arith, h, at) in
          ground (arith, h, o.unique a t k held mine, at, ==_self t, ==_self k)
      | inr e ↦ rw e (o.locked a j (ground (arith, h)))
    ];
    owner = λ j e. elim (Bool-cases (k == j)) [
      | inl h ↦ ground (arith, e, h)
      | inr h ↦
          let (a, theirs) = o.owner j (rw h at e) in
          (a, ground (arith, theirs, h, ==→≡ j k, ==_self k))
    ];
    unique = λ a b j h h'. o.unique a b j (ground (arith, h)) (ground (arith, h'));
    exists = λ j lt. elim (Bool-cases (k == j)) [
      | inl e ↦ (false, rw e refl)
      | inr e ↦ rw e (o.exists j lt)
    ];
  }

pub IsOwned-same :
    (mutexes : ℕ → Option Bool) (holds holds' : ℕ → ℕ → Bool)
    → ((a j : ℕ) → holds' a j ≡ holds a j)
    → IsOwned mutexes holds
    → IsOwned mutexes holds'
IsOwned-same mutexes holds holds' h = subst (IsOwned mutexes) (λ i a j. sym (h a j) i)
