-- ===== src/Processor/Objects.antt =====
-- txn/txn_processor.h and txn/txn_processor.cc: the objects that all schedulers share. Transactions
-- are shared by pointers: a store holds them by number, and the queues hold the numbers. `GetTime`
-- is the sequence of its results: reading number `n` of the clock is `times n`.
use database_concurrency_con.Prelude.{ℕ, ◌+◌, List, Option, update}
use database_concurrency_con.Txn.{Txn, TxnStatus}
use database_concurrency_con.TxnTypes.{Object}
use database_concurrency_con.Atomic.Queue.{push, pop}

pub data CcMode : Type 0 where
  serial locking_exclusive_only locking occ p_occ mvcc : CcMode

-- The schedulers that `RunScheduler` can call.
pub data Scheduler : Type 0 where
  run_serial_scheduler run_locking_scheduler run_occ_scheduler run_occ_parallel_scheduler
        run_mvcc_scheduler :
      Scheduler

-- `TxnProcessor::RunScheduler`
unfoldable pub run_scheduler : CcMode → Scheduler
run_scheduler serial = run_serial_scheduler
run_scheduler locking = run_locking_scheduler
run_scheduler locking_exclusive_only = run_locking_scheduler
run_scheduler occ = run_occ_scheduler
run_scheduler p_occ = run_occ_parallel_scheduler
run_scheduler mvcc = run_mvcc_scheduler

-- The queues of the processor, the store of the transactions, the next id and the number of times
-- that the clock has been read.
pub record Shared : Type 0 where
  pub objects : ℕ → Object
  pub next_unique_id : ℕ
  pub txn_requests : List ℕ
  pub completed_txns : List ℕ
  pub txn_results : List ℕ
  pub ticks : ℕ

abbrev pub txn_at : Shared → ℕ → Txn
txn_at s t = (s.objects t).txn

-- Sets the members that `Txn` declares, of the transaction at `t`.
abbrev pub set_txn : ℕ → Txn → Shared → Shared
set_txn t txn s = record s { objects = update s.objects t (record (s.objects t) { txn = txn }) }

abbrev pub set_status : ℕ → TxnStatus → Shared → Shared
set_status t status s = set_txn t (record (txn_at s t) { status = status }) s

-- `TxnProcessor::NewTxnRequest`: one step, since it holds the mutex.
unfoldable pub new_txn_request : ℕ → Shared → Shared
new_txn_request t s =
    let s' = set_txn t (record (txn_at s t) { unique_id = s.next_unique_id }) s in
    record s' { next_unique_id = s.next_unique_id + 1; txn_requests = push t s.txn_requests }

-- A round of the loop of `TxnProcessor::GetTxnResult`.
unfoldable get_txn_result : Shared → Option ℕ × Shared
get_txn_result s = let (t, q) = pop s.txn_results in (t, record s { txn_results = q })
