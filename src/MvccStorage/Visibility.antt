-- ===== src/MvccStorage/Visibility.antt =====
-- MVCCStorage::Read: which version a transaction reads, and which it marks.
use database_concurrency_con.Prelude.{
  ℕ, zero, suc, ◌+◌, ◌≤◌, ◌<◌, ◌≡◌, refl, Bool, true, false, ◌&&◌, List, [], ◌∷◌, map, Option, none,
  some, get_or, update, ltb, leb, if◌then◌else◌, ◌==◌, arith, Option-cases, inl, inr,
}
use database_concurrency_con.MvccStorage.{
  Version, MvccStorage, empty, is_visible, read_loop, read_versions, read, write, init_from,
  init_storage, record_count,
}

-- The value of the oldest of the versions that `txn` may see: those with an id above 0 and not
-- above `txn`.
unfoldable pub oldest_visible : ℕ → List Version → Option ℕ
oldest_visible txn [] = none
oldest_visible txn (v ∷ vs) = elim (oldest_visible txn vs) [
  | some x ↦ some x
  | none ↦ if is_visible txn 0 v then some v.value else none
]

-- A version that `txn` has read.
abbrev pub mark : ℕ → Version → Version
mark txn v = if is_visible txn 0 v then record v { max_read_id = txn } else v

read_loop_lem :
    (txn : ℕ) (vs : List Version) (result : ℕ)
    → read_loop txn 0 vs result ≡ (map (mark txn) vs, get_or (oldest_visible txn vs) result)
unfolding read_loop oldest_visible
read_loop_lem txn [] result = refl
read_loop_lem txn (v ∷ vs) result =
    ground (arith, read_loop_lem txn vs (if is_visible txn 0 v then v.value else result))

abbrev pub versions_of : ℕ → MvccStorage → List Version
versions_of key s = get_or (s.versions key) []

abbrev is_none : List Version → Bool
is_none [] = true
is_none (v ∷ vs) = false

-- What a read of `key` in `s` that gives `r` amounts to.
abbrev pub Reads : ℕ → ℕ → ℕ → MvccStorage → (Bool × ℕ) × MvccStorage → Type 0
Reads key result txn s r =
    (r.0 ≡ (
      if is_none (versions_of key s)
      then (false, result)
      else (true, get_or (oldest_visible txn (versions_of key s)) result)))
    × ((j : ℕ)
        → versions_of j r.1
          ≡ (if key == j then map (mark txn) (versions_of j s) else versions_of j s))
    × (r.1.mutexes ≡ s.mutexes)

read_versions-Reads :
    (key result txn : ℕ) (vs : List Version) (s : MvccStorage)
    → s.versions key ≡ some vs
    → Reads key result txn s (read_versions key result txn vs s)
unfolding read_versions
read_versions-Reads key result txn [] s e = (ground arith, λ j. ground arith, refl)
read_versions-Reads key result txn (v ∷ vs) s e =
    rw (read_loop_lem txn (v ∷ vs) result) (rw e refl, λ j. ground arith, refl)

-- For a key with no version `Read` fails and changes nothing. For any other it succeeds and marks
-- every version that the transaction may see, with that transaction even if a later one has marked
-- it before. It gives the value of the oldest such version, and leaves `*result` as it was if there
-- is none.
pub read-oldest_visible :
    (key result txn : ℕ) (s : MvccStorage) → Reads key result txn s (read key result txn s)
unfolding read
read-oldest_visible key result txn s = elim (Option-cases (s.versions key)) [
  | inl e ↦ rw (e, read) (ground arith, λ j. ground arith, refl)
  | inr (vs, e) ↦ rw (e, read) (rw e at (read_versions-Reads key result txn vs s e))
]

-- A later write is never seen: once a transaction sees some version of a key, it reads the same
-- value after any number of writes of that key, whatever their values and ids.
read-write_hidden :
    (key value id result txn : ℕ) {x : ℕ} (s : MvccStorage)
    → oldest_visible txn (versions_of key s) ≡ some x
    → (oldest_visible txn (versions_of key (write key value id s)) ≡ some x)
      × ((read key result txn (write key value id s)).0 ≡ (true, x))
unfolding write oldest_visible
read-write_hidden key value id result txn s h =
    (ground arith, ground (arith, (read-oldest_visible key result txn (write key value id s)).0))

-- Only the first write is seen: a version with an id above 0 and not above `txn` is what `txn`
-- reads if it saw none before.
read-write_first :
    (key value id result txn : ℕ) (s : MvccStorage)
    → oldest_visible txn (versions_of key s) ≡ none
    → 0 < id
    → id ≤ txn
    → (read key result txn (write key value id s)).0 ≡ (true, value)
unfolding write oldest_visible
read-write_first key value id result txn s h p q =
    ground (arith, (read-oldest_visible key result txn (write key value id s)).0)

init_from-versions :
    (n i k : ℕ) (s : MvccStorage)
    → versions_of k (init_from n i s) ≡ (
        if leb i k && ltb k (i + n)
        then record { value = 0; max_read_id = 0; version_id = 0 } ∷ versions_of k s
        else versions_of k s)
unfolding init_from write
init_from-versions zero i k s = ground arith
init_from-versions (suc n) i k s = ground (
  arith,
  init_from-versions n (i + 1) k
      (record (write i 0 0 s) { mutexes = update s.mutexes i (some false) }),
)

pub init_storage-versions :
    (k : ℕ)
    → versions_of k (init_storage empty) ≡ (
        if ltb k record_count
        then record { value = 0; max_read_id = 0; version_id = 0 } ∷ []
        else [])
unfolding init_storage
init_storage-versions k = ground (arith, init_from-versions record_count 0 k empty)

-- The initial versions are seen by nobody: after the initialisation a read of any key below one
-- million succeeds, for every transaction, and leaves `*result` as it was.
read-init_storage_unset :
    (key result txn : ℕ)
    → (read key result txn (init_storage empty)).0 ≡ (ltb key record_count, result)
unfolding oldest_visible
read-init_storage_unset key result txn =
    ground (
      arith,
      (read-oldest_visible key result txn (init_storage empty)).0,
      init_storage-versions key,
    )
