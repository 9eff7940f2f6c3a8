-- ===== src/Examples/Txns.antt =====
-- Transactions, their classes, and the single-version storage.
use database_concurrency_con.TxnTypes.Random.{random_rmw}
use database_concurrency_con.TxnTypes.Random.Draws.{Enough}
use database_concurrency_con.TxnTypes.Random.Ends.{random_rmw-ends}
use database_concurrency_con.Prelude.{
  ◌<◌, ◌++◌, Distinct, All, length, arith, ℕ, ◌≡◌, refl, true, List, [], ◌∷◌, none, some, contains,
  find, if◌then◌else◌, ◌==◌, done, ◌>>=◌,
}
use database_concurrency_con.Txn.{Txn, completed_c, read, write}
use database_concurrency_con.Txn.Access.{read-write}
use database_concurrency_con.TxnTypes.{new_txn, new_rmw, rmw, run}
use database_concurrency_con.TxnTypes.Effects.{incremented, run-rmw}
use database_concurrency_con.Storage.{empty, init_storage, record_count, timestamp}
use database_concurrency_con.Storage
use database_concurrency_con.Storage.History.{Write}

abbrev pairs : List (ℕ × ℕ)
pairs = (1, 10) ∷ (2, 20) ∷ []

-- A transaction that reads 1 and 3, and writes 2.
abbrev txn : Txn
txn = record new_txn {
  readset = 1 ∷ 3 ∷ [];
  writeset = 2 ∷ [];
  reads = (1, 10) ∷ (2, 41) ∷ (3, 0) ∷ [];
}

read-write_example : (write 2 7 txn >>= read 2 0) ≡ done (true, 7)
read-write_example = read-write 2 2 7 0 txn refl refl

run-rmw_example :
    (t' : Txn) × (run (rmw 5) txn ≡ done t')
    × (t'.status ≡ completed_c)
    × ((j : ℕ)
        → find j t'.writes
          ≡ (if contains j txn.writeset then some (incremented j txn.reads) else none))
run-rmw_example = run-rmw 5 txn refl refl (refl, tt)

-- Key 1 was written at 4, and key 2 at 7.
abbrev initial : Storage.Storage
initial = record {
  values = λ k. if k == 1 then some 10 else if k == 2 then some 20 else none;
  timestamps = λ k. if k == 1 then some 4 else if k == 2 then some 7 else none;
}

abbrev later : List Write
later = record { key = 2; value = 21; time = 9 } ∷ []

-- `rand()` gives each key below 3 twice.
drawn : Enough 3 2 (0 ∷ 4 ∷ 2 ∷ 3 ∷ 1 ∷ 5 ∷ [])
drawn = (
  0 ∷ 4 ∷ 2 ∷ [],
  3 ∷ 1 ∷ 5 ∷ [],
  refl,
  λ k lt. ground (arith, lt),
  (3 ∷ 1 ∷ 5 ∷ [], [], refl, λ k lt. ground (arith, lt), tt),
)

random_rmw-ends_example :
    (readset writeset rs' : List ℕ) × (random_rmw 3 1 1 0 (0 ∷ 4 ∷ 2 ∷ 3 ∷ 1 ∷ 5 ∷ [])
      ≡ done (some (new_rmw readset writeset 0, rs')))
    × (length readset ≡ 1)
    × (length writeset ≡ 1)
    × Distinct (readset ++ writeset)
    × All (λ k. k < 3) (readset ++ writeset)
random_rmw-ends_example = random_rmw-ends 3 1 1 0 (0 ∷ 4 ∷ 2 ∷ 3 ∷ 1 ∷ 5 ∷ []) (ground arith) drawn
