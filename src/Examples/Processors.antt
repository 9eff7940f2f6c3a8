-- ===== src/Examples/Processors.antt =====
-- A processor in the mode LOCKING, and calls on an Atomic.
use database_concurrency_con.Prelude.{ℕ, ◌+◌, ◌-◌, ◌≡◌, List, [], ◌∷◌, none, some, if◌then◌else◌}
use database_concurrency_con.TxnTypes.{Object, noop, new_txn}
use database_concurrency_con.Atomic.Cell.{
  Call, increments, decrements, adds, subtracts, run, gains, losses, stays, run-gains,
}
use database_concurrency_con.Processor.Objects.{locking, run_scheduler}
use database_concurrency_con.Processor.Construction.{
  new_processor, deletes_manager, is_set, IsManagerOf, IsIdle, Serves, new_processor-Serves,
}

abbrev times : ℕ → ℕ
times n = n

abbrev objects : ℕ → Object
objects t = record { logic = noop; txn = new_txn }

new_processor-Serves_example :
    let p = new_processor times objects locking in
    IsManagerOf locking p.manager
    × Serves times p.storage (run_scheduler locking)
    × IsIdle p
    × (deletes_manager locking ≡ is_set p.manager)
new_processor-Serves_example = new_processor-Serves times objects locking

-- An int is the number that is 2147483648 larger. From 5, ++, += -3, --, -= -2 and ++ again.
abbrev calls : List Call
calls = increments ∷ adds 2147483645 ∷ decrements ∷ subtracts 2147483646 ∷ increments ∷ []

run-gains_example :
    run calls 2147483653
    ≡ (if stays 2147483653 0 calls then some (2147483653 + gains calls - losses calls) else none)
run-gains_example = run-gains calls 2147483653
