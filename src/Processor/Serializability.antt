-- ===== src/Processor/Serializability.antt =====
-- What a history of transactions is worth: the transactions that have committed, one after the
-- other and each alone, give the same database.
use database_concurrency_con.Prelude.{
  ℕ, ◌+◌, ◌≡◌, refl, ap, ◌∙◌, sym, List, [], ◌∷◌, ◌++◌, Option, none, some, update, done, arith,
  true, contains, find, Bool-cases, inl, inr, ◌==◌, ==→≡, ==_self,
}
use database_concurrency_con.Txn.{Txn, completed_c}
use database_concurrency_con.TxnTypes.{Logic, run}
use database_concurrency_con.Storage.{Storage, read, write}
use database_concurrency_con.Storage.History.{write_all}
use database_concurrency_con.Processor.Execution.{
  fetch, fetch_all, read_phase, execute_txn, apply_writes,
}
use database_concurrency_con.Processor.Execution.Later.{fetch_all_alone}
use database_concurrency_con.Processor.Serial.Alone.{RunsTo}

-- The values of the keys.
abbrev pub Database : Type 0
Database = ℕ → Option ℕ

-- A transaction that has committed: its number, its logic, its members when it began, the time at
-- which it began, and its members when it had run.
pub record Entry : Type 0 where
  pub txn : ℕ
  pub logic : Logic
  pub before : Txn
  pub start : ℕ
  pub ran : Txn

-- The database after the writes.
pub written : List (ℕ × ℕ) → Database → Database
written [] db = db
written ((k, v) ∷ writes) db = written writes (update db k (some v))

-- The transaction votes to commit when it runs alone on the first database, and its writes make the
-- second one of it.
abbrev Transacts : Entry → Database → Database → Type 0
Transacts e db db' =
    ((st : Storage) → st.values ≡ db → RunsTo e.start e.logic st e.before e.ran)
    × (e.ran.status ≡ completed_c)
    × (db' ≡ written e.ran.writes db)

-- The entries, the last one first, make the second database of the first.
abbrev pub IsSerial : Database → List Entry → Database → Type 0
IsSerial db [] db' = db' ≡ db
IsSerial db (e ∷ log) db' = (between : Database) × IsSerial db log between × Transacts e between db'

pub apply_writes-written :
    (times : ℕ → ℕ) (writes : List (ℕ × ℕ)) (ticks : ℕ) (st : Storage)
    → (apply_writes times writes ticks st).0.values ≡ written writes st.values
unfolding apply_writes written write
apply_writes-written times [] ticks st = refl
apply_writes-written times ((k, v) ∷ writes) ticks st =
    apply_writes-written times writes (ticks + 1) (write k v (times ticks) st)

pub written_untouched :
    (writes : List (ℕ × ℕ)) (db : Database) (k : ℕ)
    → find k writes ≡ none
    → written writes db k ≡ db k
unfolding written find
written_untouched [] db k e = refl
written_untouched ((j, v) ∷ writes) db k e = elim (Bool-cases (k == j)) [
  | inl here ↦ ground (arith, e, here)
  | inr there ↦
      written_untouched writes (update db j (some v)) k (ground (arith, e, there))
      ∙ ground (arith, there, ==→≡ j k, ==_self k)
]

fetch-values :
    (k : ℕ) (st st' : Storage) (reads : List (ℕ × ℕ))
    → st'.values k ≡ st.values k
    → fetch k st' reads ≡ fetch k st reads
unfolding fetch read
fetch-values k st st' reads e = ground (arith, e)

-- What a transaction reads alone depends on the values of its keys only.
pub fetch_all-values :
    (i : ℕ) (ks : List ℕ) (st st' : Storage) (reads : List (ℕ × ℕ))
    → ((k : ℕ) → contains k ks ≡ true → st'.values k ≡ st.values k)
    → (fetch_all (λ _. []) i ks st' reads).1 ≡ (fetch_all (λ _. []) i ks st reads).1
unfolding fetch_all write_all
fetch_all-values i [] st st' reads e = refl
fetch_all-values i (k ∷ ks) st st' reads e =
    ap (λ (r : List (ℕ × ℕ)). (fetch_all (λ _. []) (i + 1) ks st' r).1)
      (fetch-values k st st' reads (e k (ground (arith, ==_self k))))
    ∙ fetch_all-values (i + 1) ks st st' (fetch k st reads) (λ j m. e j (ground (arith, m)))

-- A transaction that has read what it would read alone, and has run, does so on every storage with
-- the same values.
pub runs_alone :
    (start : ℕ) (logic : Logic) (st : Storage) (before ran : Txn) (reads : List (ℕ × ℕ))
    → reads ≡ (fetch_all (λ _. []) 0 (before.readset ++ before.writeset) st before.reads).1
    → run logic (record before { occ_start_time = start; reads = reads }) ≡ done ran
    → (st' : Storage) → st'.values ≡ st.values
    → RunsTo start logic st' before ran
unfolding execute_txn read_phase
runs_alone start logic st before ran reads h e st' same =
    let keys = before.readset ++ before.writeset in
    let all =
      fetch_all-values 0 keys st st' before.reads (λ k m. ap (λ (db : Database). db k) same)
      ∙ sym h in
    rw (fetch_all_alone 0 keys st' before.reads, all, e) refl
