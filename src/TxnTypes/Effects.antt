-- ===== src/TxnTypes/Effects.antt =====
-- What the `Run` methods do, against what the comments on the classes promise.
use database_concurrency_con.Prelude.{
  ℕ, ◌+◌, ◌%◌, ◌^◌, ◌≡◌, refl, ◌∙◌, Bool, true, false, ◌&&◌, ◌||◌, List, [], ◌∷◌, Option, none,
  some, contains, Distinct, All, insert, keys, find, assign, find-assign, find_absent,
  contains-insert, if◌then◌else◌, ◌==◌, done, arith,
}
use database_concurrency_con.Txn.{Txn, incomplete, completed_c, read, write, found_or}
use database_concurrency_con.TxnTypes.{
  expect, put, rmw, insert_all, new_expect, new_put, commit, abort, run, run_expect, run_put,
  run_rmw, read_keys, increment_keys,
}

-- The binding of a key in the first map, or else in the second.
abbrev pub or_else : Option ℕ → Option ℕ → Option ℕ
or_else none b = b
or_else (some v) b = some v

contains-insert_all :
    (j : ℕ) (ks s : List ℕ) → contains j (insert_all ks s) ≡ (contains j ks || contains j s)
unfolding insert_all
contains-insert_all j [] s = refl
contains-insert_all j (k ∷ ks) s =
    ground (arith, contains-insert_all j ks (insert k s), contains-insert j k s)

All-contained :
    (ks all : List ℕ)
    → ((j : ℕ) → contains j ks ≡ true → contains j all ≡ true)
    → All (λ k. contains k all ≡ true) ks
All-contained [] all h = tt
All-contained (k ∷ ks) all h =
    (h k (ground arith), All-contained ks all (λ j e. h j (ground arith)))

All-inserted : (ks : List ℕ) → All (λ k. contains k (insert_all ks []) ≡ true) ks
All-inserted ks =
    All-contained ks (insert_all ks []) (λ j e. ground (arith, contains-insert_all j ks []))

-- A pending write set that the logic may write to.
abbrev Writable : Txn → List ℕ → Type 0
Writable t ks = All (λ k. contains k t.writeset ≡ true) ks

run_put_lem :
    (m : List (ℕ × ℕ)) (t : Txn)
    → t.status ≡ incomplete
    → Writable t (keys m)
    → Distinct (keys m)
    → (t' : Txn) × (run_put m t ≡ done t')
      × (t'.status ≡ completed_c)
      × ((j : ℕ) → find j t'.writes ≡ or_else (find j m) (find j t.writes))
      × ((j : ℕ) → find j t'.reads ≡ or_else (find j m) (find j t.reads))
unfolding run_put find write
run_put_lem [] t e w d = (commit t, refl, refl, λ j. refl, λ j. refl)
run_put_lem ((k, v) ∷ m) t e w d =
    let written = record t { writes = assign k v t.writes; reads = assign k v t.reads } in
    let wrote : write k v t ≡ done written = ground arith in
    let (t', ran, committed, writes, reads) = run_put_lem m written e w.1 d.1 in
    (
      t',
      rw wrote ran,
      committed,
      λ j. writes j ∙ ground (arith, find-assign j k v t.writes, find_absent k m d.0),
      λ j. reads j ∙ ground (arith, find-assign j k v t.reads, find_absent k m d.0),
    )

-- A Put that has not run, with the write set of its constructor, no pending writes and a map with
-- distinct keys, commits; and what it writes is exactly its map: every pair in the map, and no
-- other key.
run-put :
    (m : List (ℕ × ℕ)) (t : Txn)
    → t.status ≡ incomplete
    → t.writeset ≡ (new_put m).txn.writeset
    → t.writes ≡ []
    → Distinct (keys m)
    → (t' : Txn) × (run (put m) t ≡ done t')
      × (t'.status ≡ completed_c)
      × ((j : ℕ) → find j t'.writes ≡ find j m)
unfolding run new_put find
run-put m t e w none_yet d =
    let (t', ran, committed, writes, _) = run_put_lem m t e (rw w (All-inserted (keys m))) d in
    (t', ran, committed, λ j. writes j ∙ ground (arith, none_yet))

-- Whether all pairs of the map are among the reads.
all_read : List (ℕ × ℕ) → List (ℕ × ℕ) → Bool
all_read [] reads = true
all_read ((k, v) ∷ m) reads =
    let rest = all_read m reads in elim (find k reads) [ none ↦ false | some x ↦ x == v && rest ]

run_expect_lem :
    (m : List (ℕ × ℕ)) (result : ℕ) (t : Txn)
    → t.status ≡ incomplete
    → All (λ k. contains k t.readset ≡ true) (keys m)
    → run_expect m result t ≡ done (if all_read m t.reads then commit t else abort t)
unfolding run_expect read all_read
run_expect_lem [] result t e w = refl
run_expect_lem ((k, v) ∷ m) result t e w =
    ground (arith, run_expect_lem m (found_or result (find k t.reads)).1 t e w.1)

-- An Expect that has not run, with the read set of its constructor, changes nothing but its
-- status: it commits if and only if every pair of its map was read, and aborts otherwise.
run-expect :
    (m : List (ℕ × ℕ)) (t : Txn)
    → t.status ≡ incomplete
    → t.readset ≡ (new_expect m).txn.readset
    → run (expect m) t ≡ done (if all_read m t.reads then commit t else abort t)
unfolding run new_expect
run-expect m t e w = run_expect_lem m 0 t e (rw w (All-inserted (keys m)))

read-found :
    (k value : ℕ) (t : Txn)
    → t.status ≡ incomplete
    → (contains k t.readset || contains k t.writeset) ≡ true
    → read k value t ≡ done (found_or value (find k t.reads))
unfolding read
read-found k value t e h = ground arith

write-done :
    (k v : ℕ) (t : Txn)
    → t.status ≡ incomplete
    → contains k t.writeset ≡ true
    → write k v t ≡ done (record t { writes = assign k v t.writes; reads = assign k v t.reads })
unfolding write
write-done k v t e h = ground arith

-- The value that the increment of a key gives.
abbrev pub incremented : ℕ → List (ℕ × ℕ) → ℕ
incremented k reads = ((found_or 0 (find k reads)).1 + 1) % 2 ^ 64

increment_keys_lem :
    (ks : List ℕ) (t : Txn)
    → t.status ≡ incomplete
    → Writable t ks
    → Distinct ks
    → (t' : Txn) × (increment_keys ks t ≡ done t')
      × ((j : ℕ)
          → find j t'.writes
            ≡ (if contains j ks then some (incremented j t.reads) else find j t.writes))
unfolding increment_keys
increment_keys_lem [] t e w d = (t, refl, λ j. refl)
increment_keys_lem (k ∷ ks) t e w d =
    let v = incremented k t.reads in
    let written = record t { writes = assign k v t.writes; reads = assign k v t.reads } in
    let (t', ran, writes) = increment_keys_lem ks written e w.1 d.1 in
    (
      t',
      rw (read-found k 0 t e (ground (arith, w.0)), write-done k v t e w.0) ran,
      λ j. writes j ∙ ground (arith, d.0, find-assign j k v t.writes, find-assign j k v t.reads),
    )

read_keys-done :
    (ks : List ℕ) (result : ℕ) (t : Txn)
    → t.status ≡ incomplete
    → All (λ k. contains k t.readset ≡ true) ks
    → (v : ℕ) × (read_keys ks result t ≡ done v)
unfolding read_keys
read_keys-done [] result t e h = (result, refl)
read_keys-done (k ∷ ks) result t e h =
    rw (read-found k result t e (ground (arith, h.0)))
      (read_keys-done ks (found_or result (find k t.reads)).1 t e h.1)

All-self : (ks : List ℕ) → All (λ k. contains k ks ≡ true) ks
All-self ks = All-contained ks ks (λ j h. h)

-- An RMW that has not run, with no pending writes and no key twice in its write set, commits, and
-- writes exactly the keys of its write set: to each the value read for it, or 0 if there was
-- none, plus one, modulo 2 ^ 64.
pub run-rmw :
    (time : ℕ) (t : Txn)
    → t.status ≡ incomplete
    → t.writes ≡ []
    → Distinct t.writeset
    → (t' : Txn) × (run (rmw time) t ≡ done t')
      × (t'.status ≡ completed_c)
      × ((j : ℕ)
          → find j t'.writes
            ≡ (if contains j t.writeset then some (incremented j t.reads) else none))
unfolding run run_rmw find
run-rmw time t e none_yet d =
    let (v, fetched) = read_keys-done t.readset 0 t e (All-self t.readset) in
    let (t', ran, writes) = increment_keys_lem t.writeset t e (All-self t.writeset) d in
    (commit t', rw (fetched, ran) refl, refl, λ j. writes j ∙ ground (arith, none_yet))
