-- ===== src/MvccStorage.antt =====
-- txn/mvcc_storage.h and txn/mvcc_storage.cc: the multiversion storage. A version is pointed to by
-- one deque only, so the deques hold the versions themselves, newest first. Timestamps are of type
-- int in the source, and never negative.
pub mod Visibility
pub mod Checks
use database_concurrency_con.Prelude.{
  ℕ, zero, suc, ◌+◌, Bool, true, false, not, ◌&&◌, List, [], ◌∷◌, Option, none, some, get_or,
  update, ltb, leb, last_or, if◌then◌else◌,
}

pub record Version : Type 0 where
  pub value : ℕ
  pub max_read_id : ℕ
  pub version_id : ℕ

-- `mvcc_data_`, and `mutexs_`: whether the mutex of a key is locked, or `none` if it has none.
pub record MvccStorage : Type 0 where
  pub versions : ℕ → Option (List Version)
  pub mutexes : ℕ → Option Bool

abbrev pub empty : MvccStorage
empty = record { versions = λ _. none; mutexes = λ _. none }

-- The test in the loop of `Read`.
abbrev pub is_visible : ℕ → ℕ → Version → Bool
is_visible txn max_less_than v = leb v.version_id txn && ltb max_less_than v.version_id

-- The loop of `Read`: the versions with their marks, and what `*result` holds in the end.
pub read_loop : ℕ → ℕ → List Version → ℕ → List Version × ℕ
read_loop txn max_less_than [] result = ([], result)
read_loop txn max_less_than (v ∷ vs) result =
    let seen = is_visible txn max_less_than v in
    let (vs', result') = read_loop txn max_less_than vs (if seen then v.value else result) in
    ((if seen then record v { max_read_id = txn } else v) ∷ vs', result')

-- The part of `Read` behind the test for the key. `maxlessthan` is 0, and stays 0.
pub read_versions : ℕ → ℕ → ℕ → List Version → MvccStorage → (Bool × ℕ) × MvccStorage
read_versions key result txn [] s = ((false, result), s)
read_versions key result txn (v ∷ vs) s =
    let (vs', result') = read_loop txn 0 (v ∷ vs) result in
    ((true, result'), record s { versions = update s.versions key (some vs') })

-- `MVCCStorage::Read`; `result` is what `*result` holds before the call.
unfoldable pub read : ℕ → ℕ → ℕ → MvccStorage → (Bool × ℕ) × MvccStorage
read key result txn s = elim (s.versions key) [
  | none ↦ ((false, result), s)
  | some vs ↦ read_versions key result txn vs s
]

-- The part of `CheckWrite` behind the test for the key: the version at the end decides.
pub check_versions : ℕ → List Version → Bool
check_versions txn [] = true
check_versions txn (v ∷ vs) = not (ltb txn (last_or v vs).max_read_id)

-- `MVCCStorage::CheckWrite`
unfoldable pub check_write : ℕ → ℕ → MvccStorage → Bool
check_write key txn s = elim (s.versions key) [ none ↦ false | some vs ↦ check_versions txn vs ]

-- `MVCCStorage::Write`: the new version goes to the front, in a new deque if the key has none.
unfoldable pub write : ℕ → ℕ → ℕ → MvccStorage → MvccStorage
write key value txn s =
    let v : Version = record { value = value; max_read_id = 0; version_id = txn } in
    record s { versions = update s.versions key (some (v ∷ get_or (s.versions key) [])) }

-- `MVCCStorage::Lock`: `none` if the call does not return, since the mutex is locked or missing.
unfoldable pub lock : ℕ → MvccStorage → Option MvccStorage
lock key s = elim (s.mutexes key) [
  | some false ↦ some (record s { mutexes = update s.mutexes key (some true) })
  | _ ↦ none
]

-- `MVCCStorage::Unlock`: `none` without a mutex that is locked, which the mutex requires.
unfoldable pub unlock : ℕ → MvccStorage → Option MvccStorage
unlock key s = elim (s.mutexes key) [
  | some true ↦ some (record s { mutexes = update s.mutexes key (some false) })
  | _ ↦ none
]

-- The loop of `MVCCStorage::InitStorage`, for `n` more keys from `i` on.
unfoldable pub init_from : ℕ → ℕ → MvccStorage → MvccStorage
init_from zero i s = s
init_from (suc n) i s =
    let s' = write i 0 0 s in
    init_from n (i + 1) (record s' { mutexes = update s'.mutexes i (some false) })

abbrev pub record_count : ℕ
record_count = 1_000_000

-- `MVCCStorage::InitStorage`
unfoldable pub init_storage : MvccStorage → MvccStorage
init_storage s = init_from record_count 0 s
