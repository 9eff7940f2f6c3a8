-- ===== src/Processor/Occ/Progress.antt =====
-- The optimistic scheduler: what holds of a transaction while a thread executes it, and how it
-- stays true while time passes and others write.
use database_concurrency_con.Prelude.{
  ℕ, ◌+◌, ◌≤◌, ◌<◌, ◌≡◌, refl, ap, ◌∙◌, sym, subst, true, List, [], ◌∷◌, ◌++◌, append-nil,
  append_assoc, All, arith, done,
}
use database_concurrency_con.Txn.{Txn}
use database_concurrency_con.TxnTypes.{Object, run}
use database_concurrency_con.TxnTypes.Keeps.{IsVote, run-IsVote, run-keeps}
use database_concurrency_con.Storage.{Storage, timestamp, write}
use database_concurrency_con.Storage.History.{write_all}
use database_concurrency_con.Processor.Execution.{fetch, fetch_all, apply_writes}
use database_concurrency_con.Processor.Execution.Later.{
  Later, Later-trans, fetch-Later, fetch_all-snoc,
}
use database_concurrency_con.Processor.Workers.{
  Place, outside, requested, queued, executed, reading, locking, keys_of,
}
use database_concurrency_con.Processor.Serializability.{runs_alone}
use database_concurrency_con.Processor.Occ.{is_valid}
use database_concurrency_con.Processor.Occ.Validation.{valid-old}
use database_concurrency_con.Processor.Serial.Alone.{RunsTo}

-- The clock: each reading gives a later time than the readings before it.
abbrev pub IsIncreasing : (ℕ → ℕ) → Type 0
IsIncreasing times = (i j : ℕ) → i < j → times i < times j

-- The keys `ds` have been read, from the reads `before` on: if they turn out to be no younger than
-- `start` in a later storage, then the reads are what that storage gives alone.
abbrev Consistent : ℕ → List ℕ → List (ℕ × ℕ) → List (ℕ × ℕ) → Storage → Type 0
Consistent start ds before reads st =
    (st' : Storage)
    → Later start st st'
    → All (λ k. timestamp k st' ≤ start) ds
    → reads ≡ (fetch_all (λ _. []) 0 ds st' before).1

-- What holds of a transaction that a thread has begun at reading `i` of the clock.
abbrev pub Worker : (ℕ → ℕ) → Place → Object → Txn → ℕ → Storage → Type 0
Worker times (reading ks) o before ticks st =
    (i : ℕ) × (ds : List ℕ) × (rs : List (ℕ × ℕ)) × (i < ticks)
    × (keys_of before ≡ ds ++ ks)
    × (o.txn ≡ record before { occ_start_time = times i; reads = rs })
    × Consistent (times i) ds before.reads rs st
Worker times executed o before ticks st =
    (i : ℕ) × (rs : List (ℕ × ℕ)) × (i < ticks)
    × (run o.logic (record before { occ_start_time = times i; reads = rs }) ≡ done o.txn)
    × Consistent (times i) (keys_of before) before.reads rs st
Worker times outside o before ticks st = Unit
Worker times requested o before ticks st = Unit
Worker times locking o before ticks st = Unit
Worker times queued o before ticks st = Unit

-- Time passes, and the storage is written to.
abbrev pub Passes : (ℕ → ℕ) → ℕ → ℕ → Storage → Storage → Type 0
Passes times ticks ticks' st st' = (ticks ≤ ticks') × ((i : ℕ) → i < ticks → Later (times i) st st')

pub Worker-later :
    (times : ℕ → ℕ) (p : Place) (o : Object) (before : Txn) (ticks ticks' : ℕ) (st st' : Storage)
    → Passes times ticks ticks' st st'
    → Worker times p o before ticks st
    → Worker times p o before ticks' st'
Worker-later times (reading ks) o before ticks ticks' st st' (le, later)
      (i, ds, rs, lt, keys, e, c) =
    (
      i,
      ds,
      rs,
      omega arith,
      keys,
      e,
      λ s l old. c s (Later-trans (times i) st st' s (later i lt) l) old,
    )
Worker-later times executed o before ticks ticks' st st' (le, later) (i, rs, lt, e, c) =
    (i, rs, omega arith, e, λ s l old. c s (Later-trans (times i) st st' s (later i lt) l) old)
Worker-later times outside o before ticks ticks' st st' h w = tt
Worker-later times requested o before ticks ticks' st st' h w = tt
Worker-later times locking o before ticks ticks' st st' h w = tt
Worker-later times queued o before ticks ticks' st st' h w = tt

pub apply_writes-Later :
    (times : ℕ → ℕ)
    → IsIncreasing times
    → (writes : List (ℕ × ℕ)) (ticks : ℕ) (st : Storage)
    → Passes times ticks
        (apply_writes times writes ticks st).1
        st
        (apply_writes times writes ticks st).0
unfolding apply_writes write_all
apply_writes-Later times up [] ticks st = (omega arith, λ i lt. ([], tt, refl))
apply_writes-Later times up ((k, v) ∷ writes) ticks st =
    let st₁ = write k v (times ticks) st in
    let (le, later) = apply_writes-Later times up writes (ticks + 1) st₁ in
    (
      omega (arith, le),
      λ i lt.
          Later-trans (times i) st st₁ _
            (record { key = k; value = v; time = times ticks } ∷ [], (up i ticks lt, tt), refl)
            (later i (omega arith)),
    )

All-snoc : (P : ℕ → Type 0) (ds : List ℕ) (k : ℕ) → All P (ds ++ k ∷ []) → All P ds × P k
All-snoc P [] k h = (tt, h.0)
All-snoc P (d ∷ ds) k h = let (all, last) = All-snoc P ds k h.1 in ((h.0, all), last)

-- The thread reads the next key.
pub Worker-fetch :
    (times : ℕ → ℕ) (k : ℕ) (ks : List ℕ) (o : Object) (before : Txn) (ticks : ℕ) (st : Storage)
    → Worker times (reading (k ∷ ks)) o before ticks st
    → Worker times
        (reading ks)
        (record o { txn = record o.txn { reads = fetch k st o.txn.reads } })
        before
        ticks
        st
Worker-fetch times k ks o before ticks st (i, ds, rs, lt, keys, e, c) = (
  i,
  ds ++ k ∷ [],
  fetch k st rs,
  lt,
  keys ∙ sym (append_assoc ds (k ∷ []) ks),
  rw e refl,
  λ st' later old.
      let (old_ds, old_k) = All-snoc (λ k. timestamp k st' ≤ times i) ds k old in
      fetch-Later (times i) k st st' rs later old_k
      ∙ ap (fetch k st') (c st' later old_ds)
      ∙ sym (fetch_all-snoc 0 ds k st' before.reads),
)

-- The thread has read all keys, and runs the logic.
pub Worker-complete :
    (times : ℕ → ℕ) (o : Object) (before ran : Txn) (ticks : ℕ) (st : Storage)
    → run o.logic o.txn ≡ done ran
    → Worker times (reading []) o before ticks st
    → Worker times executed (record o { txn = ran }) before ticks st
Worker-complete times o before ran ticks st ends (i, ds, rs, lt, keys, e, c) =
    (i, rs, lt, rw e at ends, rw (keys ∙ append-nil ds) c)

-- A transaction that has been executed and is valid has read what it would read alone.
pub executed_alone :
    (times : ℕ → ℕ) (o : Object) (before : Txn) (ticks : ℕ) (st : Storage)
    → Worker times executed o before ticks st
    → is_valid o.txn st ≡ true
    → (st' : Storage) → st'.values ≡ st.values
    → RunsTo o.txn.occ_start_time o.logic st' before o.txn
unfolding write_all
executed_alone times o before ticks st (i, rs, lt, ends, c) valid =
    let (reads, writes, time) = run-keeps o.logic _ o.txn ends in
    subst
      (λ start. (st' : Storage) → st'.values ≡ st.values → RunsTo start o.logic st' before o.txn)
      (sym time)
      (runs_alone (times i) o.logic st before o.txn rs
        (c st ([], tt, refl) (rw (reads, writes, time) at (valid-old o.txn st valid))) ends)

pub executed-IsVote :
    (times : ℕ → ℕ) (o : Object) (before : Txn) (ticks : ℕ) (st : Storage)
    → Worker times executed o before ticks st
    → IsVote o.txn.status
executed-IsVote times o before ticks st (i, rs, lt, ends, c) = run-IsVote o.logic _ o.txn ends
