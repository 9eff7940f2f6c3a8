-- ===== src/Storage.antt =====
-- txn/storage.h and txn/storage.cc: the single-version storage. What `GetTime` returns when a
-- record is written is an argument of the write.
pub mod History
use database_concurrency_con.Prelude.{
  ℕ, zero, suc, ◌+◌, Bool, true, false, List, [], ◌∷◌, Option, none, some, get_or, update,
}

-- `data_` and `timestamps_`
pub record Storage : Type 0 where
  pub values : ℕ → Option ℕ
  pub timestamps : ℕ → Option ℕ

abbrev pub empty : Storage
empty = record { values = λ _. none; timestamps = λ _. none }

-- `Storage::Read`; `result` is what `*result` holds before the call.
unfoldable pub read : ℕ → ℕ → Storage → Bool × ℕ
read key result s = elim (s.values key) [ none ↦ (false, result) | some v ↦ (true, v) ]

-- `Storage::Write`
unfoldable pub write : ℕ → ℕ → ℕ → Storage → Storage
write key value time s = record {
  values = update s.values key (some value);
  timestamps = update s.timestamps key (some time);
}

-- `Storage::Timestamp`
unfoldable pub timestamp : ℕ → Storage → ℕ
timestamp key s = get_or (s.timestamps key) 0

-- The loop of `Storage::InitStorage` for `n` more keys from `i` on; `times i` is the time at which
-- key `i` is written.
unfoldable pub init_from : (ℕ → ℕ) → ℕ → ℕ → Storage → Storage
init_from times zero i s = s
init_from times (suc n) i s = init_from times n (i + 1) (write i 0 (times i) s)

abbrev pub record_count : ℕ
record_count = 1_000_000

-- `Storage::InitStorage`
unfoldable pub init_storage : (ℕ → ℕ) → Storage → Storage
init_storage times s = init_from times record_count 0 s
