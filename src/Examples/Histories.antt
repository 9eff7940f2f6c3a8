-- ===== src/Examples/Histories.antt =====
-- A run of the processor in the mode OCC, from a new processor to the commit of a transaction.
use database_concurrency_con.Prelude
use database_concurrency_con.Prelude.{
  All, ℕ, ◌+◌, ◌≡◌, refl, List, [], ◌∷◌, some, none, if◌then◌else◌, ◌==◌, arith, Outcome, done,
}
use database_concurrency_con.Txn
use database_concurrency_con.Txn.{Txn, completed_c}
use database_concurrency_con.TxnTypes
use database_concurrency_con.TxnTypes.{rmw, Object, new_txn, run_rmw, read_keys, increment_keys}
use database_concurrency_con.Storage
use database_concurrency_con.Storage.{Storage, timestamp}
use database_concurrency_con.Atomic.Queue.{push}
use database_concurrency_con.Processor.Objects.{Shared, txn_at, new_txn_request}
use database_concurrency_con.Processor.Execution.Afresh.{RunsAfresh}
use database_concurrency_con.Processor.Execution.{fetch, commit_txn}
use database_concurrency_con.Processor.Workers.{
  queued, executed, reading, begin_txn, read_key, complete_txn,
}
use database_concurrency_con.Processor.Serializability.{IsSerial}
use database_concurrency_con.Processor.Occ
use database_concurrency_con.Processor.Occ.{is_valid, check_times, occ_finish, occ_decide}
use database_concurrency_con.Processor.Occ.System.{
  System, start_state, move, submitted, finished, submits, hands, begins, fetches, completes,
  finishes, Reach, here, next,
}
use database_concurrency_con.Processor.Occ.Histories.{occ-IsSerial}
use database_concurrency_con.Processor.Occ.Provenance.{Originate}

-- Key 5 is 20 since time 7. Transaction 4 increments it.
abbrev st : Storage
st = record {
  values = λ k. if k == 5 then some 20 else none;
  timestamps = λ k. if k == 5 then some 7 else none;
}

abbrev incrementing : Txn
incrementing = record new_txn { writeset = 5 ∷ [] }

abbrev objects : ℕ → Object
objects t = record { logic = rmw 0; txn = incrementing }

-- The clock gives 10 at first, and then 11, 12 and so on.
abbrev times : ℕ → ℕ
times n = n + 10

abbrev s₀ : System
s₀ = start_state objects 0 st

abbrev s₁ : System
s₁ = submitted 4 s₀

abbrev s₂ : System
s₂ = move 4 queued (record s₁.shared { txn_requests = [] }) s₁

abbrev s₃ : System
s₃ = record (move 4 (reading (5 ∷ [])) (begin_txn times 4 s₂.shared) s₂) {
  began = Prelude.update s₂.began 4 (txn_at s₂.shared 4);
}

abbrev s₄ : System
s₄ = move 4 (reading []) (read_key 4 5 s₃.storage s₃.shared) s₃

abbrev ran : Txn
ran = record incrementing {
  reads = (5, 21) ∷ [];
  writes = (5, 21) ∷ [];
  status = completed_c;
  unique_id = 1;
  occ_start_time = 10;
}

abbrev s₅ : System
s₅ = move 4 executed (complete_txn 4 ran s₄.shared) s₄

abbrev result : Shared × Storage
result = commit_txn times 4 (record s₅.shared { completed_txns = [] }) s₅.storage

reached : Reach times s₀ (finished 4 result s₅)
unfolding new_txn_request push begin_txn read_key complete_txn fetch Storage.read Prelude.assign
    Prelude.find TxnTypes.run run_rmw read_keys increment_keys Txn.read Txn.write Occ.is_valid
    Occ.occ_finish Occ.occ_decide check_times timestamp Storage.write
reached =
    next
      (next
        (next (next (next (next here (submits 4 refl refl refl)) (hands 4 [] refl)) (begins 4 refl))
          (fetches 4 5 [] refl))
        (completes 4 ran refl refl))
      (finishes 4 [] result refl refl)

occ-IsSerial_example :
    IsSerial st.values (finished 4 result s₅).log (finished 4 result s₅).storage.values
    × Originate (finished 4 result s₅).log (finished 4 result s₅).origins
    × All (λ e. RunsAfresh e.start e.logic e.before e.ran) (finished 4 result s₅).log
occ-IsSerial_example = occ-IsSerial (λ i j lt. omega (arith, lt)) reached
