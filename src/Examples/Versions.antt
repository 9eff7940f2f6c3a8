-- ===== src/Examples/Versions.antt =====
-- A run of the processor in the mode MVCC, with two transactions that increment the same key.
use database_concurrency_con.Prelude
use database_concurrency_con.Prelude.{
  ℕ, ◌+◌, ◌<◌, ◌≤◌, ◌≡◌, refl, Bool, true, false, List, [], ◌∷◌, Option, some, none, if◌then◌else◌,
  ltb, arith,
}
use database_concurrency_con.TxnTypes.{rmw, Object, new_txn}
use database_concurrency_con.MvccStorage.{MvccStorage, record_count}
use database_concurrency_con.MvccStorage
use database_concurrency_con.Atomic.Queue.{push}
use database_concurrency_con.Processor.Objects.{txn_at, new_txn_request}
use database_concurrency_con.Processor.Mvcc.System.{
  requested, queued, fetching, reading, leaving, System, start_state, move, noted, begins,
  locks_read, reads, submits, hands, acts, Reach, here, next,
}
use database_concurrency_con.Processor.Mvcc.Progress.{IsFresh, mvcc-mutual_exclusion}
use database_concurrency_con.Processor.Mvcc.Deadlock.{Moves, mvcc-no_deadlock}
use database_concurrency_con.Processor.Mvcc.Measure.{Trace, ends, own, steps_at, mvcc-steps_bounded}
use database_concurrency_con.Processor.Mvcc.Restarts.{is_refused, mvcc-never_restarts}

-- The storage as `InitStorage` leaves it.
abbrev st : MvccStorage
st = record {
  versions = λ k.
      if ltb k record_count
      then some (record { value = 0; max_read_id = 0; version_id = 0 } ∷ [])
      else none;
  mutexes = λ k. if ltb k record_count then some false else none;
}

st-IsFresh : IsFresh st
st-IsFresh = (λ k. refl, λ k. ground arith)

abbrev objects : ℕ → Object
objects t = record { logic = rmw 0; txn = record new_txn { writeset = 5 ∷ [] } }

abbrev s₀ : System
s₀ = start_state objects st

abbrev s₁ : System
s₁ = move 4 requested (new_txn_request 4 s₀.shared) s₀.storage s₀

abbrev s₂ : System
s₂ = move 6 requested (new_txn_request 6 s₁.shared) s₁.storage s₁

abbrev s₃ : System
s₃ = move 4 queued (record s₂.shared { txn_requests = 6 ∷ [] }) s₂.storage s₂

abbrev s₄ : System
s₄ = move 6 queued (record s₃.shared { txn_requests = [] }) s₃.storage s₃

abbrev s₅ : System
s₅ = move 4 (fetching (5 ∷ [])) s₄.shared s₄.storage s₄

abbrev s₆ : System
s₆ = move 6 (fetching (5 ∷ [])) s₅.shared s₅.storage s₅

abbrev locked : MvccStorage
locked = record s₆.storage { mutexes = Prelude.update s₆.storage.mutexes 5 (some true) }

-- 4 has the lock of the key, and 6 waits for it.
abbrev s₇ : System
s₇ = move 4 (reading 5 []) s₆.shared locked s₆

reached : Reach s₀ s₇
unfolding new_txn_request push MvccStorage.lock
reached =
    let s₄-reached : Reach s₀ s₄ =
      next
        (next (next (next here (submits 4 refl (omega arith))) (submits 6 refl (omega arith)))
          (hands 4 (6 ∷ []) refl))
        (hands 6 [] refl) in
    next (next (next s₄-reached (acts 4 (begins refl))) (acts 6 (begins refl)))
      (acts 4 (locks_read 5 [] locked refl refl))

mvcc-mutual_exclusion_example : ◌≡◌ {A = ℕ} 4 4
mvcc-mutual_exclusion_example = mvcc-mutual_exclusion st-IsFresh reached 4 4 5 refl refl

mvcc-no_deadlock_example : Moves s₇
mvcc-no_deadlock_example = mvcc-no_deadlock st-IsFresh reached 6 refl

mvcc-never_restarts_example : is_refused (s₇.stage 4) ≡ false
mvcc-never_restarts_example = mvcc-never_restarts st-IsFresh reached 4

abbrev read_at : (Bool × ℕ) × MvccStorage
read_at = MvccStorage.read 5 0 (txn_at s₇.shared 4).unique_id s₇.storage

abbrev s₈ : System
s₈ = move 4 (leaving 5 []) (noted 4 5 read_at.0 s₇.shared) read_at.1 s₇

abbrev traced : Trace 4 1 s₇ s₈
traced = own (reads 5 [] 0 refl) ends

mvcc-steps_bounded_example : 1 + steps_at 4 s₈ ≤ steps_at 4 s₇
mvcc-steps_bounded_example = mvcc-steps_bounded 4 traced
