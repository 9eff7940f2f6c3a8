-- ===== src/Examples/Locked.antt =====
-- A run of the processor in the mode LOCKING_EXCLUSIVE_ONLY: a transaction commits, and another one
-- that waited for its lock gets it.
use database_concurrency_con.Prelude
use database_concurrency_con.Prelude.{
  ℕ, ◌+◌, ◌≡◌, refl, Bool, true, contains, List, [], ◌∷◌, Option, some, none, get_or, if◌then◌else◌,
  ◌==◌, Outcome, done, died,
}
use database_concurrency_con.Txn
use database_concurrency_con.Txn.{Txn, completed_c}
use database_concurrency_con.TxnTypes
use database_concurrency_con.TxnTypes.{rmw, Object, new_txn, run_rmw, read_keys, increment_keys}
use database_concurrency_con.Storage
use database_concurrency_con.Storage.{Storage}
use database_concurrency_con.Atomic.Queue.{push}
use database_concurrency_con.LockManager.Requests.{LockRequest, request, exclusive, Tables, queue}
use database_concurrency_con.LockManager.ManagerA
use database_concurrency_con.LockManager.ManagerA.{
  push_request, write_lock, serve, serve_next, release,
}
use database_concurrency_con.LockManager.Implementations.{manager_a}
use database_concurrency_con.Processor.Objects.{Shared, txn_at, new_txn_request}
use database_concurrency_con.Processor.Execution.{fetch, apply_writes}
use database_concurrency_con.Processor.Locking.{
  release_all, acquire, acquire_writes, acquire_all, after_acquire, start_txn, settle, give_result,
  finish_txn,
}
use database_concurrency_con.Processor.Workers.{
  requested, queued, executed, reading, begin_txn, read_key, complete_txn,
}
use database_concurrency_con.Processor.Serializability.{IsSerial}
use database_concurrency_con.Processor.Exclusive.Views.{has}
use database_concurrency_con.Processor.Exclusive.System.{
  System, start_state, move, started, finished, submits, starts, hands, begins, fetches, completes,
  finishes, Reach, here, next,
}
use database_concurrency_con.Processor.Exclusive.Histories.{exclusive-IsSerial, first-is_active}

-- Key 5 is 20. Transactions 4 and 6 increment it.
abbrev st : Storage
st = record { values = λ k. if k == 5 then some 20 else none; timestamps = λ k. none }

abbrev incrementing : Txn
incrementing = record new_txn { writeset = 5 ∷ [] }

abbrev objects : ℕ → Object
objects t = record { logic = rmw 0; txn = incrementing }

abbrev times : ℕ → ℕ
times n = n + 10

abbrev s₀ : System
s₀ = start_state objects 0 st

abbrev s₁ : System
s₁ = move 4 requested (new_txn_request 4 s₀.shared) s₀

abbrev s₂ : System
s₂ = move 6 requested (new_txn_request 6 s₁.shared) s₁

abbrev start : ℕ → List ℕ → System → Shared × Tables
start t q s =
    get_or (start_txn manager_a t (record s.shared { txn_requests = q }) s.tables)
      (s.shared, s.tables)

abbrev s₃ : System
s₃ = started 4 (start 4 (6 ∷ []) s₂) s₂

abbrev s₄ : System
s₄ = started 6 (start 6 [] s₃) s₃

abbrev s₅ : System
s₅ = record (move 4 queued s₄.shared s₄) { tables = record s₄.tables { ready_txns = [] } }

abbrev s₆ : System
s₆ = record (move 4 (reading (5 ∷ [])) (begin_txn times 4 s₅.shared) s₅) {
  began = Prelude.update s₅.began 4 (txn_at s₅.shared 4);
}

abbrev s₇ : System
s₇ = move 4 (reading []) (read_key 4 5 s₆.storage s₆.shared) s₆

abbrev ran : Txn
ran = record incrementing {
  reads = (5, 21) ∷ [];
  writes = (5, 21) ∷ [];
  status = completed_c;
  unique_id = 1;
  occ_start_time = 10;
}

abbrev s₈ : System
s₈ = move 4 executed (complete_txn 4 ran s₇.shared) s₇

abbrev result_of :
    System → Outcome (Option ((Shared × Tables) × Storage)) → (Shared × Tables) × Storage
result_of s died = ((s.shared, s.tables), s.storage)
result_of s (done r) = get_or r ((s.shared, s.tables), s.storage)

abbrev result : (Shared × Tables) × Storage
result =
    result_of s₈
      (finish_txn manager_a times 4 (record s₈.shared { completed_txns = [] }) s₈.storage s₈.tables)

abbrev s₉ : System
s₉ = finished 4 result s₈

-- Transaction 4 has its lock, and 6 is requested.
has_lock : Reach times s₀ s₃
unfolding new_txn_request push release_all acquire acquire_writes acquire_all after_acquire
    start_txn push_request write_lock ManagerA.read_lock
has_lock =
    next (next (next here (submits 4 refl refl (refl, tt))) (submits 6 refl refl (refl, tt)))
      (starts 4 (6 ∷ []) (start 4 (6 ∷ []) s₂) refl refl)

-- Transaction 6 waits for transaction 4, which has been executed.
has_run : Reach times s₀ s₈
unfolding new_txn_request push begin_txn read_key complete_txn fetch Storage.read Prelude.assign
    Prelude.find TxnTypes.run run_rmw read_keys increment_keys Txn.read Txn.write acquire
    acquire_writes acquire_all after_acquire start_txn push_request write_lock ManagerA.read_lock
has_run =
    next
      (next
        (next (next (next has_lock (starts 6 [] (start 6 [] s₃) refl refl)) (hands 4 [] refl))
          (begins 4 refl))
        (fetches 4 5 [] refl))
      (completes 4 ran refl refl)

has_finished : Reach times s₀ s₉
unfolding new_txn_request push begin_txn read_key complete_txn fetch Storage.read Prelude.assign
    Prelude.find Storage.write release_all acquire acquire_writes acquire_all after_acquire
    start_txn push_request write_lock ManagerA.read_lock serve serve_next release settle give_result
    finish_txn apply_writes
has_finished = next has_run (finishes 4 [] result refl refl)

exclusive-IsSerial_example : IsSerial st.values s₉.log s₉.storage.values
exclusive-IsSerial_example = exclusive-IsSerial has_finished

first-is_active_example :
    (has (s₈.place 4) (contains 4 s₈.tables.ready_txns) ≡ true)
    × ((q' : List LockRequest) × (queue s₈.tables 5 ≡ request exclusive 4 ∷ q'))
unfolding new_txn_request push begin_txn read_key complete_txn acquire acquire_writes acquire_all
    after_acquire start_txn push_request write_lock
first-is_active_example =
    first-is_active has_run 5 5 (request exclusive 4) (request exclusive 6 ∷ []) refl refl
