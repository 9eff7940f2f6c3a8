-- ===== src/Prelude/Maps.antt =====
-- `std::set` and `std::map` of numbers, as lists in increasing order of the keys, which is the
-- order in which the program goes through them.
use database_concurrency_con.Prelude.Tests.{ltb, ◌==◌, if◌then◌else◌, Bool-cases, ==→≡, ==_self}
use database_concurrency_con.Prelude.Lists.{contains, length, Distinct}
use Prim.Native.Nat.{ℕ, ◌+◌}
use mathlib.Core.Path.{◌≡◌, refl}
use mathlib.Core.Bool.{false, ◌||◌}
use mathlib.Core.List.{List, [], ◌∷◌, map}
use mathlib.Core.Option.{Option, none, some}
use mathlib.Core.Logic.{inl, inr}
use native.Mathlib.Omega.{arith}

-- `set.insert(k)`
pub insert : ℕ → List ℕ → List ℕ
insert k [] = k ∷ []
insert k (j ∷ s) =
    let rest = insert k s in if k == j then j ∷ s else if ltb k j then k ∷ j ∷ s else j ∷ rest

pub contains-insert : (j k : ℕ) (s : List ℕ) → contains j (insert k s) ≡ (j == k || contains j s)
unfolding insert
contains-insert j k [] = refl
contains-insert j k (i ∷ s) = ground (arith, contains-insert j k s)

pub length-insert : (k : ℕ) (s : List ℕ) → contains k s ≡ false → length (insert k s) ≡ length s + 1
unfolding insert
length-insert k [] h = refl
length-insert k (j ∷ s) h = ground (arith, h, length-insert k s)

pub insert-Distinct :
    (k : ℕ) (s : List ℕ) → contains k s ≡ false → Distinct s → Distinct (insert k s)
unfolding insert
insert-Distinct k [] h d = (refl, tt)
insert-Distinct k (j ∷ s) h d = elim (Bool-cases (ltb k j)) [
  | inl e ↦ rw (e, differs) (h, d)
  | inr e ↦
      rw (e, differs)
        (
          ground (arith, contains-insert j k s, differs, ==→≡ j k, ==_self k, d.0),
          insert-Distinct k s (ground (arith, h)) d.1,
        )
]
  where
    differs : (k == j) ≡ false
    differs = ground (arith, h)

module _ {ℓ} {V : Type ℓ} where
  -- `map[k]`, if it is there
  unfoldable pub find : ℕ → List (ℕ × V) → Option V
  find k [] = none
  find k ((j, v) ∷ m) = let rest = find k m in if k == j then some v else rest

  -- `map[k] = v`
  unfoldable pub assign : ℕ → V → List (ℕ × V) → List (ℕ × V)
  assign k v [] = (k, v) ∷ []
  assign k v ((j, w) ∷ m) =
      let rest = assign k v m in
      if k == j then (k, v) ∷ m else if ltb k j then (k, v) ∷ (j, w) ∷ m else (j, w) ∷ rest

  pub find-assign :
      (j k : ℕ) (v : V) (m : List (ℕ × V))
      → find j (assign k v m) ≡ (if j == k then some v else find j m)
  unfolding find assign
  find-assign j k v [] = refl
  find-assign j k v ((i, w) ∷ m) = ground (arith, find-assign j k v m)

  abbrev pub keys : List (ℕ × V) → List ℕ
  keys = map (λ e. e.0)

  pub find_absent : (k : ℕ) (m : List (ℕ × V)) → contains k (keys m) ≡ false → find k m ≡ none
  unfolding find
  find_absent k [] h = refl
  find_absent k ((j, v) ∷ m) h = ground (arith, find_absent k m)
