-- ===== src/TxnTypes.antt =====
-- txn/txn_types.h: the transactions Noop, Expect, Put and RMW. The `Run` method of an object
-- depends on its class, which is a value of `Logic` here.
pub mod Effects
pub mod Keeps
pub mod Leftovers
pub mod Tidy
pub mod Writes
pub mod Random
use database_concurrency_con.Prelude.{
  ℕ, ◌+◌, ◌%◌, ◌^◌, Bool, true, false, not, ◌||◌, List, [], ◌∷◌, insert, keys, if◌then◌else◌, ◌==◌,
  Outcome, done, died, ◌>>=◌,
}
use database_concurrency_con.Txn.{
  Txn, TxnStatus, incomplete, completed_c, completed_a, read, write, copy_txn_internals,
}

-- The classes, with the members that they add to `Txn`: `m_` and `time_`.
pub data Logic : Type 0 where
  noop : Logic
  expect : List (ℕ × ℕ) → Logic
  put : List (ℕ × ℕ) → Logic
  rmw : (time : ℕ) → Logic

pub record Object : Type 0 where
  pub logic : Logic
  pub txn : Txn

-- The constructor `Txn()`. It leaves `unique_id_` and `occ_start_time_` uninitialised: 0 stands for
-- what they hold.
abbrev pub new_txn : Txn
new_txn = record {
  readset = [];
  writeset = [];
  reads = [];
  writes = [];
  status = incomplete;
  unique_id = 0;
  occ_start_time = 0;
}

-- The loops of the constructors of Expect and Put, over the keys of `m_`.
pub insert_all : List ℕ → List ℕ → List ℕ
insert_all [] s = s
insert_all (k ∷ ks) s = insert_all ks (insert k s)

abbrev new_noop : Object
new_noop = record { logic = noop; txn = new_txn }

pub new_expect : List (ℕ × ℕ) → Object
new_expect m = record {
  logic = expect m;
  txn = record new_txn { readset = insert_all (keys m) [] };
}

pub new_put : List (ℕ × ℕ) → Object
new_put m = record { logic = put m; txn = record new_txn { writeset = insert_all (keys m) [] } }

-- The constructor of RMW with a read set and a write set.
pub new_rmw : List ℕ → List ℕ → ℕ → Object
new_rmw readset writeset time = record {
  logic = rmw time;
  txn = record new_txn { readset = readset; writeset = writeset };
}

-- `clone`: a new object of the class, with the members of the class, into which `CopyTxnInternals`
-- copies the rest.
pub new_of : Logic → Object
new_of noop = new_noop
new_of (expect m) = new_expect m
new_of (put m) = new_put m
new_of (rmw time) = new_rmw [] [] time

pub clone : Object → Object
clone o = let c = new_of o.logic in record c { txn = copy_txn_internals o.txn c.txn }

-- The macros COMMIT and ABORT.
abbrev pub commit : Txn → Txn
commit t = record t { status = completed_c }

abbrev pub abort : Txn → Txn
abort t = record t { status = completed_a }

-- `Expect::Run`; `result` is the local of that name.
pub run_expect : List (ℕ × ℕ) → ℕ → Txn → Outcome Txn
run_expect [] result t = done (commit t)
run_expect ((k, v) ∷ m) result t = do
  (found, result') ← read k result t
  let rest = run_expect m result' t
  if not found || not (result' == v) then done (abort t) else rest

-- `Put::Run`
pub run_put : List (ℕ × ℕ) → Txn → Outcome Txn
run_put [] t = done (commit t)
run_put ((k, v) ∷ m) t = do t' ← write k v t; run_put m t'

-- The first loop of `RMW::Run`, which reads the read set: the last value read.
unfoldable pub read_keys : List ℕ → ℕ → Txn → Outcome ℕ
read_keys [] result t = done result
read_keys (k ∷ ks) result t = do (_, result') ← read k result t; read_keys ks result' t

-- The second loop, which increments the write set. Values are of type uint64_t.
unfoldable pub increment_keys : List ℕ → Txn → Outcome Txn
increment_keys [] t = done t
increment_keys (k ∷ ks) t = do
  (_, result) ← read k 0 t
  t' ← write k ((result + 1) % 2 ^ 64) t
  increment_keys ks t'

-- `RMW::Run`. The busy loop behind the two loops only takes time.
unfoldable pub run_rmw : Txn → Outcome Txn
run_rmw t = do _ ← read_keys t.readset 0 t; t' ← increment_keys t.writeset t; done (commit t')

-- `Run`. The locals `result` are uninitialised at first, and are read only after they are set.
unfoldable pub run : Logic → Txn → Outcome Txn
run noop t = done (commit t)
run (expect m) t = run_expect m 0 t
run (put m) t = run_put m t
run (rmw time) t = run_rmw t
