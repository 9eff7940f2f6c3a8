-- ===== src/Processor/Exclusive/Progress.antt =====
-- The exclusive scheduler: what holds of a transaction while it has its locks, and how it stays true
-- while others write to other keys.
use database_concurrency_con.Prelude.{
  ℕ, ◌≡◌, refl, ap, ◌∙◌, sym, subst, true, false, List, [], ◌∷◌, ◌++◌, append-nil, append_assoc,
  contains, contains-append, Distinct, find, arith, done,
}
use database_concurrency_con.Txn.{Txn}
use database_concurrency_con.TxnTypes.{Object, run}
use database_concurrency_con.TxnTypes.Keeps.{IsVote, run-IsVote, run-keeps}
use database_concurrency_con.TxnTypes.Writes.{WritesWithin, run-Keeps}
use database_concurrency_con.Storage.{Storage}
use database_concurrency_con.Processor.Execution.{fetch, fetch_all}
use database_concurrency_con.Processor.Execution.Later.{fetch_all-snoc}
use database_concurrency_con.Processor.Workers.{
  Place, outside, requested, locking, queued, executed, reading, keys_of,
}
use database_concurrency_con.Processor.Serial.Alone.{RunsTo}
use database_concurrency_con.Processor.Serializability.{fetch_all-values, runs_alone}
use database_concurrency_con.Processor.Exclusive.Views.{has}

-- The reads of the keys `ds`, from `before` on, are what the storage gives alone.
abbrev pub Alone : List ℕ → List (ℕ × ℕ) → List (ℕ × ℕ) → Storage → Type 0
Alone ds before reads st = reads ≡ (fetch_all (λ _. []) 0 ds st before).1

-- A transaction that has not run.
abbrev pub IsNew : Txn → Type 0
IsNew txn = Distinct (keys_of txn) × (txn.writes ≡ [])

-- What holds of a transaction at a place; `before` is what it was when a thread began it.
abbrev pub Worker : Place → Object → Txn → Storage → Type 0
Worker (reading ks) o before st =
    IsNew before
    × (start : ℕ) × (ds : List ℕ) × (rs : List (ℕ × ℕ)) × (keys_of before ≡ ds ++ ks)
    × (o.txn ≡ record before { occ_start_time = start; reads = rs })
    × Alone ds before.reads rs st
Worker executed o before st =
    IsNew before
    × (start : ℕ) × (rs : List (ℕ × ℕ)) × (run o.logic
          (record before { occ_start_time = start; reads = rs })
        ≡ done o.txn)
    × Alone (keys_of before) before.reads rs st
Worker outside o before st = Unit
Worker requested o before st = IsNew o.txn
Worker locking o before st = IsNew o.txn
Worker queued o before st = IsNew o.txn

-- The keys of a transaction that has run are those that it had.
pub executed-keys :
    (o : Object) (before : Txn) (st : Storage)
    → Worker executed o before st
    → (keys_of o.txn ≡ keys_of before) × WritesWithin o.txn × IsVote o.txn.status
unfolding find
executed-keys o before st (new, start, rs, ends, alone) =
    let (reads, writes, time) = run-keeps o.logic _ o.txn ends in
    (
      rw (reads, writes) refl,
      (run-Keeps o.logic _ o.txn ends).1 (λ k out. rw new.1 refl),
      run-IsVote o.logic _ o.txn ends,
    )

-- Others write to other keys.
pub Worker-values :
    (p : Place) (o : Object) (before : Txn) (st st' : Storage)
    → (has p false ≡ true
        → (k : ℕ) → contains k (keys_of o.txn) ≡ true
        → st'.values k ≡ st.values k)
    → Worker p o before st
    → Worker p o before st'
Worker-values (reading ks) o before st st' same (new, start, ds, rs, keys, e, alone) =
    let agree : (k : ℕ) → contains k ds ≡ true → st'.values k ≡ st.values k =
      λ k m. same refl k (rw (e, keys) (ground (arith, m, contains-append k ds ks))) in
    (new, start, ds, rs, keys, e, alone ∙ sym (fetch_all-values 0 ds st st' before.reads agree))
Worker-values executed o before st st' same (new, start, rs, ends, alone) =
    let (keys, _, _) = executed-keys o before st (new, start, rs, ends, alone) in
    let agree : (k : ℕ) → contains k (keys_of before) ≡ true → st'.values k ≡ st.values k =
      λ k m. same refl k (rw keys m) in
    (
      new,
      start,
      rs,
      ends,
      alone ∙ sym (fetch_all-values 0 (keys_of before) st st' before.reads agree),
    )
Worker-values outside o before st st' same w = tt
Worker-values requested o before st st' same w = w
Worker-values locking o before st st' same w = w
Worker-values queued o before st st' same w = w

-- The thread reads the next key.
pub Worker-fetch :
    (k : ℕ) (ks : List ℕ) (o : Object) (before : Txn) (st : Storage)
    → Worker (reading (k ∷ ks)) o before st
    → Worker
        (reading ks)
        (record o { txn = record o.txn { reads = fetch k st o.txn.reads } })
        before
        st
Worker-fetch k ks o before st (new, start, ds, rs, keys, e, alone) = (
  new,
  start,
  ds ++ k ∷ [],
  fetch k st rs,
  keys ∙ sym (append_assoc ds (k ∷ []) ks),
  rw e refl,
  ap (fetch k st) alone ∙ sym (fetch_all-snoc 0 ds k st before.reads),
)

-- The thread has read all keys, and runs the logic.
pub Worker-complete :
    (o : Object) (before ran : Txn) (st : Storage)
    → run o.logic o.txn ≡ done ran
    → Worker (reading []) o before st
    → Worker executed (record o { txn = ran }) before st
Worker-complete o before ran st ends (new, start, ds, rs, keys, e, alone) =
    (new, start, rs, rw e at ends, rw (keys ∙ append-nil ds) alone)

-- A transaction that has been executed has read what it would read alone.
pub executed_alone :
    (o : Object) (before : Txn) (st : Storage)
    → Worker executed o before st
    → (st' : Storage) → st'.values ≡ st.values
    → RunsTo o.txn.occ_start_time o.logic st' before o.txn
executed_alone o before st (new, start, rs, ends, alone) =
    let (_, _, time) = run-keeps o.logic _ o.txn ends in
    subst (λ i. (st' : Storage) → st'.values ≡ st.values → RunsTo i o.logic st' before o.txn)
      (sym time) (runs_alone start o.logic st before o.txn rs alone ends)
