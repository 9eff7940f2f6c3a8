-- ===== src/Processor/Workers.antt =====
-- txn/txn_processor.cc: `ExecuteTxn` in the steps in which a thread makes it while other threads
-- run: it reads the clock, then one key at a time, and then it runs the logic and hands over.
use database_concurrency_con.Prelude.{ℕ, ◌+◌, List, ◌++◌}
use database_concurrency_con.Txn.{Txn}
use database_concurrency_con.Storage.{Storage}
use database_concurrency_con.Atomic.Queue.{push}
use database_concurrency_con.Processor.Objects.{Shared, txn_at, set_txn}
use database_concurrency_con.Processor.Execution.{fetch}

-- Where a transaction is: with the client, in `txn_requests_`, with the lock manager (in the deque of
-- a key that it waits for, or in `ready_txns_`), in a queue of the thread pool, with a thread that has
-- yet to read the keys given, or in `completed_txns_`.
pub data Place : Type 0 where
  outside requested locking queued executed : Place
  reading : List ℕ → Place

-- The keys that `ExecuteTxn` reads, in order.
abbrev pub keys_of : Txn → List ℕ
keys_of t = t.readset ++ t.writeset

-- `txn->occ_start_time_ = GetTime();`
unfoldable pub begin_txn : (ℕ → ℕ) → ℕ → Shared → Shared
begin_txn times t s =
    record (set_txn t (record (txn_at s t) { occ_start_time = times s.ticks }) s) {
      ticks = s.ticks + 1;
    }

-- A round of one of the two loops.
unfoldable pub read_key : ℕ → ℕ → Storage → Shared → Shared
read_key t k st s = set_txn t (record (txn_at s t) { reads = fetch k st (txn_at s t).reads }) s

-- The end, where `ran` is the transaction after `Run`.
unfoldable pub complete_txn : ℕ → Txn → Shared → Shared
complete_txn t ran s = record (set_txn t ran s) { completed_txns = push t s.completed_txns }
