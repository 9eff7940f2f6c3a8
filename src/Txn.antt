-- ===== src/Txn.antt =====
-- txn/txn.h and txn/txn.cc: transactions, and what their logic may call.
pub mod Access
use database_concurrency_con.Prelude.{
  ℕ, Bool, true, false, ◌&&◌, ◌||◌, not, List, [], ◌∷◌, Option, none, some, contains, find, assign,
  if◌then◌else◌, Outcome, done, died,
}

pub data TxnStatus : Type 0 where
  incomplete completed_c completed_a committed aborted : TxnStatus

-- `status == INCOMPLETE`
abbrev is_incomplete : TxnStatus → Bool
is_incomplete incomplete = true
is_incomplete completed_c = false
is_incomplete completed_a = false
is_incomplete committed = false
is_incomplete aborted = false

-- Times are numbers of microseconds.
pub record Txn : Type 0 where
  pub readset : List ℕ
  pub writeset : List ℕ
  pub reads : List (ℕ × ℕ)
  pub writes : List (ℕ × ℕ)
  pub status : TxnStatus
  pub unique_id : ℕ
  pub occ_start_time : ℕ

-- The answer to a lookup that keeps the old `*value` where nothing is found.
abbrev pub found_or : ℕ → Option ℕ → Bool × ℕ
found_or value none = (false, value)
found_or value (some v) = (true, v)

-- `Txn::Read`; `value` is what `*value` holds before the call.
unfoldable pub read : ℕ → ℕ → Txn → Outcome (Bool × ℕ)
read key value t =
    if not (contains key t.readset) && not (contains key t.writeset)
    then died
    else if is_incomplete t.status
    then done (found_or value (find key t.reads))
    else done (false, value)

-- `Txn::Write`
unfoldable pub write : ℕ → ℕ → Txn → Outcome Txn
write key value t =
    if not (contains key t.writeset)
    then died
    else if is_incomplete t.status
    then done (record t { writes = assign key value t.writes; reads = assign key value t.reads })
    else done t

-- `Txn::CheckReadWriteSets`: the loop over the write set.
pub check_keys : List ℕ → List ℕ → Outcome (Unit {0})
check_keys readset [] = done tt
check_keys readset (k ∷ ks) =
    let rest = check_keys readset ks in if contains k readset then died else rest

pub check_read_write_sets : Txn → Outcome (Unit {0})
check_read_write_sets t = check_keys t.readset t.writeset

-- `Txn::CopyTxnInternals`, from `this` to `txn`
unfoldable pub copy_txn_internals : Txn → Txn → Txn
copy_txn_internals this txn = record {
  readset = this.readset;
  writeset = this.writeset;
  reads = this.reads;
  writes = this.writes;
  status = this.status;
  unique_id = this.unique_id;
  occ_start_time = this.occ_start_time;
}
