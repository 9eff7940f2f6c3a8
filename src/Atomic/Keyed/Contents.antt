-- ===== src/Atomic/Keyed/Contents.antt =====
-- AtomicMap and AtomicSet: what each method leaves in the container.
use database_concurrency_con.Prelude.{
  ℕ, ◌≡◌, not, ◌&&◌, ◌||◌, List, [], ◌∷◌, none, some, contains, contains-insert, find, find-assign,
  if◌then◌else◌, ◌==◌, arith,
}
use database_concurrency_con.Atomic.Keyed.{
  lookup, set_key, erase_key, has_element, add_element, erase_element, get_set,
}

module _ {ℓ} {V : Type ℓ} where
  find-erase_key :
      (j key : ℕ) (m : List (ℕ × V))
      → find j (erase_key key m) ≡ (if j == key then none else find j m)
  unfolding find erase_key
  find-erase_key j key [] = ground arith
  find-erase_key j key ((i, v) ∷ m) = ground (arith, find-erase_key j key m)

  -- `Insert` binds its key and no other, and `Erase` unbinds its key and no other.
  lookup_after :
      (j key : ℕ) (value : V) (m : List (ℕ × V))
      → (lookup j (set_key key value m) ≡ (if j == key then some value else lookup j m))
        × (lookup j (erase_key key m) ≡ (if j == key then none else lookup j m))
  unfolding lookup set_key
  lookup_after j key value m = (find-assign j key value m, find-erase_key j key m)

contains-erase_element :
    (j value : ℕ) (s : List ℕ)
    → contains j (erase_element value s) ≡ (not (j == value) && contains j s)
unfolding erase_element
contains-erase_element j value [] = ground arith
contains-erase_element j value (x ∷ s) = ground (arith, contains-erase_element j value s)

-- `Insert` adds its element and no other, and `Erase` removes its element and no other.
has_element_after :
    (j value : ℕ) (s : List ℕ)
    → (has_element j (get_set (add_element value s)) ≡ (j == value || has_element j s))
      × (has_element j (get_set (erase_element value s)) ≡ (not (j == value) && has_element j s))
unfolding has_element add_element get_set
has_element_after j value s = (contains-insert j value s, contains-erase_element j value s)
