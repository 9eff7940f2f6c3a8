-- ===== src/Processor/Execution/Afresh.antt =====
-- A transaction that has the reads and pending writes of an earlier run, and runs again where each of
-- its keys has a value, ends as if it had none.
use database_concurrency_con.Prelude.{
  ℕ, ◌+◌, ◌≡◌, ◌≢◌, refl, ◌∙◌, sym, Bool, true, false, ◌||◌, List, [], ◌∷◌, ◌++◌, none, some, arith,
  contains, contains-append, find, find-assign, ◌==◌, if◌then◌else◌, Option-cases, inl, inr,
}
use database_concurrency_con.Txn.{Txn, incomplete}
use database_concurrency_con.TxnTypes.{Logic, run}
use database_concurrency_con.TxnTypes.Keeps.{Outcome-cases}
use database_concurrency_con.TxnTypes.Leftovers.{outputs, Alike, run-EndsAlike}
use database_concurrency_con.TxnTypes.Tidy.{Tidy, outputs-writeset}
use database_concurrency_con.Storage.{Storage, read}
use database_concurrency_con.Storage.History.{write_all}
use database_concurrency_con.Processor.Execution.{fetch, fetch_all, read_phase, execute_txn}
use database_concurrency_con.Processor.Execution.Later.{fetch_all_alone}
use database_concurrency_con.Processor.Serial.Alone.{RunsTo}

-- The transaction without reads and pending writes.
abbrev afresh : Txn → Txn
afresh t = record t { reads = []; writes = [] }

fetch-find :
    (k j : ℕ) (st : Storage) (rs : List (ℕ × ℕ)) (v : ℕ)
    → st.values k ≡ some v
    → find j (fetch k st rs) ≡ (if j == k then some v else find j rs)
unfolding fetch read
fetch-find k j st rs v e = ground (arith, e, find-assign j k v rs)

-- Where all keys have a value, what is read for them does not depend on what was read before.
fetch_all-find :
    (i : ℕ) (ks : List ℕ) (st : Storage) (known : ℕ → Bool) (rs rs₀ : List (ℕ × ℕ))
    → ((j : ℕ) → contains j ks ≡ true → st.values j ≢ none)
    → ((j : ℕ) → known j ≡ true → find j rs₀ ≡ find j rs)
    → (j : ℕ) → (known j || contains j ks) ≡ true
    → find j (fetch_all (λ _. []) i ks st rs₀).1 ≡ find j (fetch_all (λ _. []) i ks st rs).1
unfolding fetch_all write_all
fetch_all-find i [] st known rs rs₀ has same j h = same j (ground (arith, h))
fetch_all-find i (k ∷ ks) st known rs rs₀ has same j h = elim (Option-cases (st.values k)) [
  | inl e ↦ absurd (has k (ground arith) e)
  | inr (v, e) ↦
      fetch_all-find (i + 1) ks st (λ j. known j || j == k) (fetch k st rs) (fetch k st rs₀)
        (λ j m. has j (ground (arith, m)))
        (λ j m. fetch-find k j st rs₀ v e ∙ ground (arith, m, same j, fetch-find k j st rs v e)) j
        (ground (arith, h))
]

-- It has not run, and its pending writes are of keys that its run writes.
abbrev pub Ready : Logic → Txn → Type 0
Ready logic t = (t.status ≡ incomplete) × Tidy logic t

-- In a storage in which each of its keys has a value, it ends with the status with which it ends
-- without its reads and pending writes, and with the same pending writes.
abbrev pub RunsAfresh : ℕ → Logic → Txn → Txn → Type 0
RunsAfresh start logic before ran =
    (st : Storage)
    → ((k : ℕ) → contains k (before.readset ++ before.writeset) ≡ true → st.values k ≢ none)
    → RunsTo start logic st before ran
    → (ran₀ : Txn) × RunsTo start logic st (afresh before) ran₀
      × (ran₀.status ≡ ran.status)
      × ((j : ℕ) → find j ran₀.writes ≡ find j ran.writes)

pub Ready-RunsAfresh :
    (start : ℕ) (logic : Logic) (before ran : Txn)
    → Ready logic before
    → RunsAfresh start logic before ran
unfolding execute_txn read_phase find
Ready-RunsAfresh start logic before ran (begun, tidy) st has runs =
    elim (Outcome-cases (run logic t)) [
      | inl bad ↦ ground (arith, rw bad at runs)
      | inr (ran', ran_to) ↦
          let (ran₀, ran_to₀, status, writes) = run-EndsAlike logic t ran' t₀ alike ran_to in
          let e : ran' ≡ ran = ground (arith, rw ran_to at runs) in
          (
            ran₀,
            rw (ran_to₀, fetch_all_alone 0 ks st []) refl,
            rw (sym e) status,
            λ j. rw (sym e) (writes j),
          )
    ]
  where
    ks : List ℕ
    ks = before.readset ++ before.writeset

    t : Txn
    t = record before {
      occ_start_time = start;
      reads = (fetch_all (λ _. []) 0 ks st before.reads).1;
    }

    t₀ : Txn
    t₀ = record (afresh before) {
      occ_start_time = start;
      reads = (fetch_all (λ _. []) 0 ks st []).1;
    }

    alike : Alike (outputs logic t) t t₀
    alike = record {
      begun = begun;
      status = refl;
      readset = refl;
      writeset = refl;
      reads = λ j is_key.
          fetch_all-find 0 ks st (λ _. false) before.reads [] has (λ j h. ground (arith, h)) j
            (ground (arith, is_key, contains-append j before.readset before.writeset));
      writes = λ j out. sym (tidy j (rw (outputs-writeset logic before t refl) at out));
    }
