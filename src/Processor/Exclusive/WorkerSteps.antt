-- ===== src/Processor/Exclusive/WorkerSteps.antt =====
-- The exclusive scheduler: the steps of the threads of the pool keep what holds in every state.
use database_concurrency_con.Prelude.{ℕ, ◌≡◌, refl, List, [], ◌∷◌, update, ==_self, arith, done}
use database_concurrency_con.Txn.{Txn}
use database_concurrency_con.TxnTypes.{run}
use database_concurrency_con.TxnTypes.Keeps.{run-keeps}
use database_concurrency_con.Atomic.Queue.{push}
use database_concurrency_con.Processor.Objects.{txn_at}
use database_concurrency_con.Processor.Execution.{fetch_all}
use database_concurrency_con.Processor.Workers.{
  requested, locking, queued, executed, reading, keys_of, begin_txn, read_key, complete_txn,
}
use database_concurrency_con.Places.{Holds-move, Holds-push}
use database_concurrency_con.Processor.Serializability.{Database}
use database_concurrency_con.Processor.Exclusive.Moves.{move-IsOrderly}
use database_concurrency_con.Processor.Exclusive.Progress.{Worker-fetch, Worker-complete}
use database_concurrency_con.Processor.Exclusive.System.{System, move}
use database_concurrency_con.Processor.Exclusive.Invariant.{Inv, Same, sets_after, workers_after}

module _ (keys : ℕ → List ℕ) (db : Database) where
  pub begins-Inv :
      (times : ℕ → ℕ) (t : ℕ) (s : System)
      → s.place t ≡ queued
      → Inv keys db s
      → Inv keys db
          (record (move t (reading (keys_of (txn_at s.shared t))) (begin_txn times t s.shared) s) {
            began = update s.began t (txn_at s.shared t);
          })
  unfolding begin_txn fetch_all
  begins-Inv times t s e inv =
      let p = reading (keys_of (txn_at s.shared t)) in
      let s' = record (move t p (begin_txn times t s.shared) s) {
        began = update s.began t (txn_at s.shared t);
      } in
      let same : Same keys db t s s' = λ j n. (rw n refl, rw n refl, rw n refl) in
      record {
        serial = inv.serial;
        sets = sets_after keys db t s s' same (rw (txn_at, ==_self t) refl) inv.sets;
        workers =
            workers_after keys db t s s' same (λ j n h k m. refl) inv.workers
              (rw (==_self t) (
                rw e at (inv.workers t),
                times s.ticks,
                [],
                (txn_at s.shared t).reads,
                refl,
                refl,
                refl,
              ));
        orderly =
            move-IsOrderly keys s.place t p s.tables.ready_txns s.tables (rw e refl) (rw e refl)
              inv.orderly;
        asked =
            Holds-move requested s.txn_requests s.place t p (λ e'. ground (arith, e, e')) inv.asked;
        readies =
            Holds-move locking s.tables.ready_txns s.place t p (λ e'. ground (arith, e, e'))
              inv.readies;
        waiting =
            Holds-move executed s.completed_txns s.place t p (λ e'. ground (arith, e, e'))
              inv.waiting;
      }

  pub fetches-Inv :
      (t k : ℕ) (ks : List ℕ) (s : System)
      → s.place t ≡ reading (k ∷ ks)
      → Inv keys db s
      → Inv keys db (move t (reading ks) (read_key t k s.storage s.shared) s)
  unfolding read_key
  fetches-Inv t k ks s e inv =
      let p = reading ks in
      let s' = move t p (read_key t k s.storage s.shared) s in
      let same : Same keys db t s s' = λ j n. (rw n refl, rw n refl, refl) in
      record {
        serial = inv.serial;
        sets = sets_after keys db t s s' same (rw (txn_at, ==_self t) refl) inv.sets;
        workers =
            workers_after keys db t s s' same (λ j n h k m. refl) inv.workers
              (rw (==_self t)
                (Worker-fetch k ks (s.objects t) (s.began t) s.storage (rw e at (inv.workers t))));
        orderly =
            move-IsOrderly keys s.place t p s.tables.ready_txns s.tables (rw e refl) (rw e refl)
              inv.orderly;
        asked =
            Holds-move requested s.txn_requests s.place t p (λ e'. ground (arith, e, e')) inv.asked;
        readies =
            Holds-move locking s.tables.ready_txns s.place t p (λ e'. ground (arith, e, e'))
              inv.readies;
        waiting =
            Holds-move executed s.completed_txns s.place t p (λ e'. ground (arith, e, e'))
              inv.waiting;
      }

  pub completes-Inv :
      (t : ℕ) (ran : Txn) (s : System)
      → s.place t ≡ reading []
      → run (s.objects t).logic (txn_at s.shared t) ≡ done ran
      → Inv keys db s
      → Inv keys db (move t executed (complete_txn t ran s.shared) s)
  unfolding complete_txn push
  completes-Inv t ran s e ends inv =
      let s' = move t executed (complete_txn t ran s.shared) s in
      let same : Same keys db t s s' = λ j n. (rw n refl, rw n refl, refl) in
      let (reads, writes, _) = run-keeps (s.objects t).logic _ ran ends in
      record {
        serial = inv.serial;
        sets = sets_after keys db t s s' same (rw (txn_at, ==_self t, reads, writes) refl) inv.sets;
        workers =
            workers_after keys db t s s' same (λ j n h k m. refl) inv.workers
              (rw (==_self t) (
                Worker-complete (s.objects t) (s.began t) ran s.storage ends
                  (rw e at (inv.workers t))));
        orderly =
            move-IsOrderly keys s.place t executed s.tables.ready_txns s.tables (rw e refl)
              (rw e refl) inv.orderly;
        asked =
            Holds-move requested s.txn_requests s.place t executed (λ e'. ground (arith, e, e'))
              inv.asked;
        readies =
            Holds-move locking s.tables.ready_txns s.place t executed (λ e'. ground (arith, e, e'))
              inv.readies;
        waiting =
            Holds-push executed s.completed_txns s.place t (λ e'. ground (arith, e, e'))
              inv.waiting;
      }
