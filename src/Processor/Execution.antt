-- ===== src/Processor/Execution.antt =====
-- txn/txn_processor.cc: `ExecuteTxn`, `ApplyWrites` and `OCCValidateTransaction`, on the
-- single-version storage. While a thread executes a transaction the scheduler may write to the
-- storage: `others i` are the writes that it makes before the thread's read number `i`.
pub mod Decisions
pub mod Later
pub mod Afresh
use database_concurrency_con.Prelude.{
  ℕ, zero, suc, ◌+◌, Bool, true, false, List, [], ◌∷◌, ◌++◌, Option, none, some, assign, ltb,
  if◌then◌else◌, Outcome, done, died, ◌>>=◌,
}
use database_concurrency_con.Txn.{Txn, TxnStatus, committed, aborted}
use database_concurrency_con.Atomic.Queue.{push, pop}
use database_concurrency_con.Processor.Objects.{Shared, txn_at, set_txn, set_status}
use database_concurrency_con.TxnTypes.{Logic, run}
use database_concurrency_con.Storage.{Storage}
use database_concurrency_con.Storage
use database_concurrency_con.Storage.History.{Write, write_all}

-- `Value result; if (storage_->Read(key, &result)) txn->reads_[key] = result;`
unfoldable pub fetch : ℕ → Storage → List (ℕ × ℕ) → List (ℕ × ℕ)
fetch key s reads =
    let (found, result) = Storage.read key 0 s in if found then assign key result reads else reads

-- A loop of `ExecuteTxn`, over the keys of a set, from read number `i` on: the storage, and `reads_`.
unfoldable pub fetch_all :
    (ℕ → List Write) → ℕ → List ℕ → Storage → List (ℕ × ℕ) → Storage × List (ℕ × ℕ)
fetch_all others i [] s reads = (s, reads)
fetch_all others i (k ∷ ks) s reads =
    let s' = write_all (others i) s in fetch_all others (i + 1) ks s' (fetch k s' reads)

-- `ExecuteTxn` up to `Run`: the storage and the transaction. `start` is the result of `GetTime`.
unfoldable pub read_phase : (ℕ → List Write) → ℕ → Storage → Txn → Storage × Txn
read_phase others start s t =
    let (s', reads) = fetch_all others 0 (t.readset ++ t.writeset) s t.reads in
    (s', record t { occ_start_time = start; reads = reads })

-- `ExecuteTxn`, but for the hand-over to the scheduler: the storage, and the transaction after `Run`.
unfoldable pub execute_txn : (ℕ → List Write) → ℕ → Logic → Storage → Txn → Outcome (Storage × Txn)
execute_txn others start logic s t = do
  let (s', t') = read_phase others start s t
  ran ← run logic t'
  done (s', ran)

-- `ApplyWrites`: the writes of a transaction, in the order of its map; the clock is read for each.
unfoldable pub apply_writes : (ℕ → ℕ) → List (ℕ × ℕ) → ℕ → Storage → Storage × ℕ
apply_writes times [] ticks s = (s, ticks)
apply_writes times ((k, v) ∷ writes) ticks s =
    apply_writes times writes (ticks + 1) (Storage.write k v (times ticks) s)

-- A loop of `OCCValidateTransaction`.
unfoldable pub all_older : ℕ → List ℕ → Storage → Bool
all_older start [] s = true
all_older start (k ∷ ks) s =
    let rest = all_older start ks s in if ltb start (Storage.timestamp k s) then false else rest

-- `OCCValidateTransaction`
unfoldable pub occ_validate_transaction : Txn → Storage → Bool
occ_validate_transaction t s =
    if all_older t.occ_start_time t.readset s
    then all_older t.occ_start_time t.writeset s
    else false

-- `ExecuteTxn`, as one thread's call: it reads the clock, and hands the transaction over.
unfoldable pub execute :
    (ℕ → ℕ) → (ℕ → List Write) → ℕ → Shared → Storage → Outcome (Shared × Storage)
execute times others t s st = do
  (st', ran) ← execute_txn others (times s.ticks) (s.objects t).logic st (txn_at s t)
  done (
    record (set_txn t ran s) { ticks = s.ticks + 1; completed_txns = push t s.completed_txns },
    st',
  )

-- `ApplyWrites(txn); txn->status_ = COMMITTED; txn_results_.Push(txn);`
unfoldable pub commit_txn : (ℕ → ℕ) → ℕ → Shared → Storage → Shared × Storage
commit_txn times t s st =
    let (st', ticks') = apply_writes times (txn_at s t).writes s.ticks st in
    (record (set_status t committed s) { ticks = ticks'; txn_results = push t s.txn_results }, st')

-- `txn->status_ = ABORTED; txn_results_.Push(txn);`
unfoldable pub abort_txn : ℕ → Shared → Shared
abort_txn t s = record (set_status t aborted s) { txn_results = push t s.txn_results }
