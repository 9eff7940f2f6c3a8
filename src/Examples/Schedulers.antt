-- ===== src/Examples/Schedulers.antt =====
-- The schedulers of txn/txn_processor.cc.
use database_concurrency_con.Prelude
use database_concurrency_con.Prelude.{
  ℕ, ◌+◌, ◌<◌, ◌≡◌, ◌≢◌, ◌⊎◌, inl, inr, refl, Bool, true, false, Bool-cases, List, [], ◌∷◌, ◌++◌,
  Option, none, some, All, contains, Distinct, update, ltb, if◌then◌else◌, ◌==◌, arith, Outcome,
  done, died,
}
use database_concurrency_con.Txn.{Txn, TxnStatus, incomplete, completed_c, completed_a, committed}
use database_concurrency_con.Txn
use database_concurrency_con.TxnTypes
use database_concurrency_con.TxnTypes.{
  run_rmw, read_keys, increment_keys, Logic, noop, expect, put, rmw, Object, new_txn,
}
use database_concurrency_con.Storage
use database_concurrency_con.Storage.{Storage, timestamp}
use database_concurrency_con.Storage.History.{Write, write_all, After}
use database_concurrency_con.MvccStorage.{MvccStorage}
use database_concurrency_con.LockManager.ManagerB.{ManagerB}
use database_concurrency_con.LockManager.Implementations.{manager_b, IsProper, manager_b-LockLaws}
use database_concurrency_con.Examples.Locks.{requests, sharing, found}
use database_concurrency_con.Processor.Objects.{Shared, set_txn}
use database_concurrency_con.Processor.Execution.{
  execute_txn, read_phase, fetch_all, fetch, occ_validate_transaction,
}
use database_concurrency_con.Processor.Execution.Decisions
use database_concurrency_con.Processor.Serial.{serial_txn}
use database_concurrency_con.Processor.Serial.Alone.{serial_txn-cases}
use database_concurrency_con.Processor.Occ.{is_valid, check_times, occ_finish}
use database_concurrency_con.Processor.Occ.Finish
use database_concurrency_con.Processor.Occ.Finish.{occ_finish-cases}
use database_concurrency_con.Processor.Occ.Validation.{
  execute_txn-serializable, is_valid-occ_validate_transaction,
}
use database_concurrency_con.Processor.Locking.{acquire_all, finish_txn}
use database_concurrency_con.Processor.Locking.Rollback.{
  AllOrNothing, both_granted, both_asked, acquire_all-AllOrNothing,
}
use database_concurrency_con.Processor.Locking.Releases.{Freed, finish_txn-cases}
use database_concurrency_con.Processor.Mvcc.{check_all, mvcc_validate}
use database_concurrency_con.Processor.Mvcc.Commits
use database_concurrency_con.Processor.Mvcc.Commits.{mvcc_validate-cases}

-- The transaction 4 reads key 6 and writes key 5.
abbrev txn : Txn
txn = record new_txn { readset = 6 ∷ []; writeset = 5 ∷ [] }

abbrev shared : Shared
shared = record {
  objects = λ _. record { logic = rmw 0; txn = txn };
  next_unique_id = 1;
  txn_requests = [];
  completed_txns = [];
  txn_results = [];
  ticks = 10;
}

sharing-IsProper : IsProper sharing
sharing-IsProper k = elim (Bool-cases (5 == k)) [
  | inl e ↦ rw e (requests, (refl, (refl, (refl, tt))))
  | inr e ↦ rw e (tt, tt)
]

acquire_all-AllOrNothing_example :
    AllOrNothing
      (manager_b found)
      IsProper
      (manager_b-LockLaws found)
      4
      (both_granted (manager_b found) IsProper (manager_b-LockLaws found) 4 txn sharing)
      (both_asked (manager_b found) IsProper (manager_b-LockLaws found) 4 txn sharing)
      sharing
      (6 ∷ 5 ∷ [])
      (acquire_all (manager_b found) 4 txn sharing)
acquire_all-AllOrNothing_example =
    acquire_all-AllOrNothing (manager_b found) IsProper (manager_b-LockLaws found) 4 txn sharing
      refl (refl, (refl, tt)) (λ j. ground arith) sharing-IsProper

-- Key 5 is 20 since time 7, and key 6 is 30 since time 8.
abbrev st : Storage
st = record {
  values = λ k. if k == 5 then some 20 else if k == 6 then some 30 else none;
  timestamps = λ k. if k == 5 then some 7 else if k == 6 then some 8 else none;
}

-- What the transaction becomes on this storage when it starts at `start`.
abbrev ran : ℕ → Txn
ran start = record txn {
  reads = (5, 21) ∷ (6, 30) ∷ [];
  writes = (5, 21) ∷ [];
  status = completed_c;
  occ_start_time = start;
}

-- Before the second read another transaction writes key 9, and behind the last one key 8.
abbrev others : ℕ → List Write
others i = if i == 1 then record { key = 9; value = 90; time = 11 } ∷ [] else []

abbrev behind : List Write
behind = record { key = 8; value = 80; time = 12 } ∷ []

others-After : (n : ℕ) → After 10 (others n)
others-After n = elim (Bool-cases (n == 1)) [ inl e ↦ rw e (ground arith, tt) | inr e ↦ rw e tt ]

ran_with_others : execute_txn others 10 (rmw 0) st txn ≡ done (write_all (others 1) st, ran 10)
unfolding execute_txn read_phase fetch_all fetch Storage.read Storage.write write_all Prelude.assign
    Prelude.find TxnTypes.run run_rmw read_keys increment_keys Txn.read Txn.write
ran_with_others = refl

execute_txn-serializable_example :
    execute_txn (λ _. []) 10 (rmw 0) (write_all behind (write_all (others 1) st)) txn
    ≡ done (write_all behind (write_all (others 1) st), ran 10)
unfolding is_valid check_times timestamp write_all Storage.write
execute_txn-serializable_example =
    execute_txn-serializable others 10 (rmw 0) st (write_all (others 1) st) txn (ran 10) behind
      others-After (ground arith, tt) ran_with_others refl

is_valid-occ_validate_transaction_example :
    is_valid (ran 7) st ≡ occ_validate_transaction (ran 7) st
is_valid-occ_validate_transaction_example = is_valid-occ_validate_transaction (ran 7) st

-- The transaction has run and waits for its validation.
abbrev finished : Shared
finished = set_txn 4 (ran 7) shared

occ_finish-cases_example :
    (s' : Shared) × (st' : Storage) × (occ_finish (λ n. n) 4 finished st ≡ done (s', st'))
    × ((completed_c ≡ completed_a) × Decisions.IsAbort 4 finished st s' st'
        ⊎ (completed_c ≡ completed_c)
          × (is_valid (ran 7) st ≡ true)
          × Decisions.IsCommit 4 finished st s' st'
        ⊎ (completed_c ≡ completed_c)
          × (is_valid (ran 7) st ≡ false)
          × Finish.IsRestart 4 finished st s' st')
occ_finish-cases_example = occ_finish-cases (λ n. n) 4 finished st (refl, tt) (inl refl)

ran_alone : execute_txn (λ _. []) 10 (rmw 0) st txn ≡ done (st, ran 10)
unfolding execute_txn read_phase fetch_all fetch Storage.read write_all Prelude.assign Prelude.find
    TxnTypes.run run_rmw read_keys increment_keys Txn.read Txn.write
ran_alone = refl

serial_txn-cases_example :
    (s' : Shared) × (st' : Storage) × (serial_txn (λ n. n) 4 shared st ≡ done (s', st'))
    × (let s₁ = set_txn 4 (ran 10) shared in
        (completed_c ≡ completed_c) × Decisions.IsCommit 4 s₁ st s' st'
        ⊎ (completed_c ≡ completed_a) × Decisions.IsAbort 4 s₁ st s' st')
serial_txn-cases_example = serial_txn-cases (λ n. n) 4 shared st (ran 10) ran_alone (refl, tt)

-- Transaction 2, which read key 5, has run and wants to write nothing.
abbrev reader : Txn
reader = record new_txn { readset = 5 ∷ []; reads = (5, 20) ∷ []; status = completed_c }

abbrev giving : Shared
giving = set_txn 2 reader shared

finish_txn-cases_example :
    (p' : Shared) × (s' : ManagerB) × (st' : Storage) × (finish_txn
        (manager_b found)
        (λ n. n)
        2
        giving
        st
        sharing
      ≡ done (some ((p', s'), st')))
    × IsProper s'
    × Freed (manager_b found) IsProper (manager_b-LockLaws found) 2 (5 ∷ []) sharing s'
    × ((completed_c ≡ completed_c) × Decisions.IsCommit 2 giving st p' st'
        ⊎ (completed_c ≡ completed_a) × Decisions.IsAbort 2 giving st p' st')
finish_txn-cases_example =
    finish_txn-cases (manager_b found) IsProper (manager_b-LockLaws found) 2 (λ n. n) giving st
      sharing (inl refl) tt (refl, tt) sharing-IsProper (refl, tt)

-- Key 5 has an old version, that transaction 9 has read.
abbrev versions : MvccStorage
versions = record {
  versions = λ _. some (record { value = 1; max_read_id = 9; version_id = 2 } ∷ []);
  mutexes = λ _. some false;
}

mvcc_validate-cases_example :
    (s' : Shared) × (st' : MvccStorage) × (mvcc_validate (λ _ st. st) 2 4 finished versions
      ≡ some (s', st'))
    × ((j : ℕ) → st'.mutexes j ≡ (if contains j (5 ∷ []) then some false else some false))
    × ((check_all 0 (5 ∷ []) versions ≡ true) × Commits.IsCommit 4 finished versions s' st'
        ⊎ (check_all 0 (5 ∷ []) versions ≡ false) × Commits.IsRestart 4 finished versions s' st')
mvcc_validate-cases_example = mvcc_validate-cases 2 4 finished versions (refl, tt) (refl, tt)
