-- ===== src/Processor/Occ/Preservation.antt =====
-- The optimistic scheduler: the clients, the scheduler and the threads keep the invariant.
use database_concurrency_con.Prelude.{
  ℕ, ◌≡◌, refl, subst, Bool, true, List, ◌∷◌, Bool-cases, inl, inr, ==_self, arith, Outcome, done,
}
use database_concurrency_con.Txn.{Txn, completed_c}
use database_concurrency_con.TxnTypes.{Object}
use database_concurrency_con.Storage.{Storage}
use database_concurrency_con.Atomic.Queue.{push}
use database_concurrency_con.Processor.Objects.{Shared, txn_at, new_txn_request}
use database_concurrency_con.Processor.Execution.{commit_txn, abort_txn}
use database_concurrency_con.Processor.Workers.{outside, requested, executed}
use database_concurrency_con.Places.{Holds-move, Holds-push, Holds-pop}
use database_concurrency_con.Processor.Serializability.{Database, apply_writes-written}
use database_concurrency_con.Processor.Occ.{is_valid, occ_finish, occ_decide, restart}
use database_concurrency_con.Processor.Occ.System.{
  System, start_state, entry_of, settled, concluded, Step, submits, hands, begins, fetches,
  completes, finishes, Reach, here, next,
}
use database_concurrency_con.Processor.Occ.Progress.{
  IsIncreasing, apply_writes-Later, executed_alone, executed-IsVote,
}
use database_concurrency_con.Processor.Occ.Invariant.{
  Inv, workers_after, stays, submits-Inv, hands-Inv, begins-Inv, fetches-Inv, completes-Inv,
}

returns : {A : Type 0} {a a' : A} → ◌≡◌ {A = Outcome A} (done a) (done a') → a ≡ a'
returns e = ground (arith, e)

module _ (times : ℕ → ℕ) (db : Database) where
  -- The transaction commits.
  commits-Inv :
      (t : ℕ) (q : List ℕ) (s : System)
      → IsIncreasing times
      → s.completed_txns ≡ t ∷ q
      → (txn_at s.shared t).status ≡ completed_c
      → is_valid (txn_at s.shared t) s.storage ≡ true
      → Inv times db s
      → Inv times db (
          settled t outside
            (entry_of t s ∷ s.log)
            (commit_txn times t (record s.shared { completed_txns = q }) s.storage)
            s)
  unfolding commit_txn push
  commits-Inv t q s up e vote valid inv =
      let r = commit_txn times t (record s.shared { completed_txns = q }) s.storage in
      let waiting = rw e at inv.waiting in
      let here = waiting.1 t (ground arith) in
      record {
        serial = (
          s.storage.values,
          inv.serial,
          (
            executed_alone times (s.objects t) (s.began t) s.ticks s.storage
                (rw here at (inv.workers t)) valid,
            vote,
            apply_writes-written times (txn_at s.shared t).writes s.ticks s.storage,
          ),
        );
        workers =
            workers_after times db t s (settled t outside (entry_of t s ∷ s.log) r s)
              (λ j n. (rw n refl, rw n refl, refl))
              (apply_writes-Later times up (txn_at s.shared t).writes s.ticks s.storage) inv.workers
              (rw (==_self t) tt);
        asked =
            Holds-move requested s.txn_requests s.place t outside (λ e'. ground (arith, here, e'))
              inv.asked;
        waiting = Holds-pop executed q s.place t outside waiting;
      }

  aborts-Inv :
      (t : ℕ) (q : List ℕ) (s : System)
      → s.completed_txns ≡ t ∷ q
      → Inv times db s
      → Inv times db (
          settled t outside s.log
            (abort_txn t (record s.shared { completed_txns = q }), s.storage)
            s)
  unfolding abort_txn push
  aborts-Inv t q s e inv =
      let r : Shared × Storage =
        (abort_txn t (record s.shared { completed_txns = q }), s.storage) in
      let waiting = rw e at inv.waiting in
      let here = waiting.1 t (ground arith) in
      record {
        serial = inv.serial;
        workers =
            workers_after times db t s (settled t outside s.log r s)
              (λ j n. (rw n refl, rw n refl, refl))
              (stays times db s.ticks s.ticks s.storage (omega arith)) inv.workers
              (rw (==_self t) tt);
        asked =
            Holds-move requested s.txn_requests s.place t outside (λ e'. ground (arith, here, e'))
              inv.asked;
        waiting = Holds-pop executed q s.place t outside waiting;
      }

  restarts-Inv :
      (t : ℕ) (q : List ℕ) (s : System)
      → s.completed_txns ≡ t ∷ q
      → Inv times db s
      → Inv times db (
          settled t requested s.log
            (restart t (record s.shared { completed_txns = q }), s.storage)
            s)
  unfolding restart new_txn_request push
  restarts-Inv t q s e inv =
      let r : Shared × Storage = (restart t (record s.shared { completed_txns = q }), s.storage) in
      let waiting = rw e at inv.waiting in
      let here = waiting.1 t (ground arith) in
      record {
        serial = inv.serial;
        workers =
            workers_after times db t s (settled t requested s.log r s)
              (λ j n. (rw n refl, rw n refl, refl))
              (stays times db s.ticks s.ticks s.storage (omega arith)) inv.workers
              (rw (==_self t) tt);
        asked =
            Holds-push requested s.txn_requests s.place t (λ e'. ground (arith, here, e'))
              inv.asked;
        waiting = Holds-pop executed q s.place t requested waiting;
      }

  finishes-Inv :
      (t : ℕ) (q : List ℕ) (r : Shared × Storage) (s : System)
      → IsIncreasing times
      → s.completed_txns ≡ t ∷ q
      → occ_finish times t (record s.shared { completed_txns = q }) s.storage ≡ done r
      → Inv times db s
      → Inv times db (concluded t r s)
  unfolding occ_finish occ_decide
  finishes-Inv t q r s up e ends inv =
      let here = (rw e at inv.waiting).1 t (ground arith) in
      elim (executed-IsVote times (s.objects t) (s.began t) s.ticks s.storage
        (rw here at (inv.workers t))) [
          | inr vote ↦ rw vote (
              subst (λ r. Inv times db (settled t outside s.log r s)) (returns (rw vote at ends))
                (aborts-Inv t q s e inv))
          | inl vote ↦ elim (Bool-cases (is_valid (txn_at s.shared t) s.storage)) [
            | inl valid ↦
                rw (vote, valid)
                  (subst (λ r. Inv times db (settled t outside (entry_of t s ∷ s.log) r s))
                    (returns (rw (valid, vote) at ends)) (commits-Inv t q s up e vote valid inv))
            | inr valid ↦
                rw (vote, valid)
                  (subst (λ r. Inv times db (settled t requested s.log r s))
                    (returns (rw (valid, vote) at ends)) (restarts-Inv t q s e inv))
          ]
        ]

  -- What is kept for the proofs only does not matter.
  noted :
      (handed : ℕ → Txn) (restarted : ℕ → Bool) (origins : List (Txn × Bool)) (s : System)
      → Inv times db s
      → Inv times db (record s { handed = handed; restarted = restarted; origins = origins })
  noted handed restarted origins s inv = record {
    serial = inv.serial;
    workers = inv.workers;
    asked = inv.asked;
    waiting = inv.waiting;
  }

  Step-keeps :
      {s s' : System} → IsIncreasing times → Step times s s' → Inv times db s → Inv times db s'
  Step-keeps {s} up (submits t e fresh unwritten) inv =
      noted _ _ _ _ (submits-Inv times db t s e inv)
  Step-keeps {s} up (hands t q e) inv = hands-Inv times db t q s e inv
  Step-keeps {s} up (begins t e) inv = begins-Inv times db t s e inv
  Step-keeps {s} up (fetches t k ks e) inv = fetches-Inv times db t k ks s e inv
  Step-keeps {s} up (completes t ran e ends) inv = completes-Inv times db t ran s e ends inv
  Step-keeps {s} up (finishes t q r e ends) inv = noted _ _ _ _ (finishes-Inv t q r s up e ends inv)

pub reach-Inv :
    {times : ℕ → ℕ} {objects : ℕ → Object} {ticks : ℕ} {st : Storage} {s : System}
    → IsIncreasing times
    → Reach times (start_state objects ticks st) s
    → Inv times st.values s
reach-Inv up here = record {
  serial = refl;
  workers = λ t. tt;
  asked = (tt, λ j e. ground (arith, e));
  waiting = (tt, λ j e. ground (arith, e));
}
reach-Inv {times} {st = st} up (next r step) = Step-keeps times st.values up step (reach-Inv up r)
