-- ===== src/Atomic/Keyed.antt =====
-- utils/atomic.h, classes AtomicMap and AtomicSet, with numbers for keys and elements.
pub mod Contents
use database_concurrency_con.Prelude.{
  ℕ, Bool, true, false, List, [], ◌∷◌, Option, none, some, length, contains, insert, find, assign,
  if◌then◌else◌, ◌==◌,
}

module _ {ℓ} {V : Type ℓ} where
  -- `AtomicMap::Size`
  unfoldable pub size : List (ℕ × V) → ℕ
  size m = length m

  -- `AtomicMap::Lookup`: the value, if there is one.
  pub lookup : ℕ → List (ℕ × V) → Option V
  lookup key m = find key m

  -- `AtomicMap::Contains`
  unfoldable has_key : ℕ → List (ℕ × V) → Bool
  has_key key m = elim (find key m) [ none ↦ false | some v ↦ true ]

  -- `AtomicMap::Insert`, and `AtomicMap::Set`, which calls it
  pub set_key : ℕ → V → List (ℕ × V) → List (ℕ × V)
  set_key key value m = assign key value m

  -- `AtomicMap::Erase`
  pub erase_key : ℕ → List (ℕ × V) → List (ℕ × V)
  erase_key key [] = []
  erase_key key ((j, v) ∷ m) =
      let rest = erase_key key m in if key == j then rest else (j, v) ∷ rest

-- `AtomicSet::Size`
unfoldable set_size : List ℕ → ℕ
set_size s = length s

-- `AtomicSet::Contains`
pub has_element : ℕ → List ℕ → Bool
has_element value s = contains value s

-- `AtomicSet::Insert`
pub add_element : ℕ → List ℕ → List ℕ
add_element value s = insert value s

-- `AtomicSet::Erase`
pub erase_element : ℕ → List ℕ → List ℕ
erase_element value [] = []
erase_element value (x ∷ s) =
    let rest = erase_element value s in if value == x then rest else x ∷ rest

-- `AtomicSet::GetFirst`: `none` where the set is empty, whose first element the source reads too.
unfoldable get_first : List ℕ → Option ℕ
get_first [] = none
get_first (x ∷ s) = some x

-- `AtomicSet::GetSet`
pub get_set : List ℕ → List ℕ
get_set s = s
