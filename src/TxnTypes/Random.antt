-- ===== src/TxnTypes/Random.antt =====
-- txn/txn_types.h: the constructor of RMW that picks its sets at random. The results of `rand()` are
-- a list, from which each call takes the first; `none` is a loop that wants more of them.
pub mod Draws
pub mod Ends
use database_concurrency_con.Prelude.{
  ℕ, zero, suc, ◌+◌, ◌%◌, ◌<◌, ◌≤◌, ◌≡◌, ◌≢◌, refl, ap, ◌∙◌, sym, subst, Bool, true, false, ◌||◌,
  List, [], ◌∷◌, ◌++◌, Option, none, some, arith, All, contains, length, insert, contains-insert,
  length-insert, insert-Distinct, Distinct, Bool-cases, inl, inr, if◌then◌else◌, ◌==◌, ==→≡, leb,
  ltb, ◌⊎◌, ==_self, ◌&&◌, map, contains-append, length-append, append_assoc, Outcome, done, died,
}
use native.Mathlib.Nat.{mod-lt}
use database_concurrency_con.TxnTypes.{Object, rmw, new_rmw}

-- The `do` loop: a key that is in neither set, and the results of `rand()` that are left.
pub find_key : ℕ → List ℕ → List ℕ → List ℕ → Option (ℕ × List ℕ)
find_key dbsize others keys [] = none
find_key dbsize others keys (r ∷ rs) =
    let key = r % dbsize in
    let rest = find_key dbsize others keys rs in
    if contains key others || contains key keys then rest else some (key, rs)

-- A `for` loop, which enters so many new keys into `keys`.
pub find_keys : ℕ → ℕ → List ℕ → List ℕ → List ℕ → Option (List ℕ × List ℕ)
find_keys dbsize zero others keys rs = some (keys, rs)
find_keys dbsize (suc n) others keys rs = elim (find_key dbsize others keys rs) [
  | none ↦ none
  | some (key, rs') ↦ find_keys dbsize n others (insert key keys) rs'
]

-- The constructor; the DCHECK is the first test.
pub random_rmw : ℕ → ℕ → ℕ → ℕ → List ℕ → Outcome (Option (Object × List ℕ))
random_rmw dbsize readsetsize writesetsize time rs =
    if leb (readsetsize + writesetsize) dbsize
    then done (elim (find_keys dbsize readsetsize [] [] rs) [
      | none ↦ none
      | some (readset, rs') ↦ elim (find_keys dbsize writesetsize readset [] rs') [
        | none ↦ none
        | some (writeset, rs'') ↦ some (new_rmw readset writeset time, rs'')
      ]
    ])
    else died
