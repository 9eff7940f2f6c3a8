-- ===== src/Processor/Occ/Invariant.antt =====
-- The optimistic scheduler: what holds in every state, and that the clients and the threads keep it.
use database_concurrency_con.Prelude.{
  ℕ, ◌+◌, ◌≤◌, ◌≡◌, refl, subst, false, List, [], ◌∷◌, update, Bool-cases, inl, inr, ◌==◌, ==→≡,
  ==_self, arith, done,
}
use database_concurrency_con.Txn.{Txn}
use database_concurrency_con.TxnTypes.{run}
use database_concurrency_con.Storage.{Storage}
use database_concurrency_con.Storage.History.{write_all}
use database_concurrency_con.Atomic.Queue.{push}
use database_concurrency_con.Processor.Objects.{txn_at, new_txn_request}
use database_concurrency_con.Processor.Execution.{fetch_all}
use database_concurrency_con.Processor.Workers.{
  outside, requested, queued, executed, reading, keys_of, begin_txn, read_key, complete_txn,
}
use database_concurrency_con.Places.{Holds, Holds-move, Holds-push, Holds-pop}
use database_concurrency_con.Processor.Serializability.{Database, IsSerial}
use database_concurrency_con.Processor.Occ.System.{System, move}
use database_concurrency_con.Processor.Occ.Progress.{
  Worker, Passes, Worker-later, Worker-fetch, Worker-complete,
}

module _ (times : ℕ → ℕ) (db : Database) where
  abbrev pub WorkerOf : System → ℕ → Type 0
  WorkerOf s t = Worker times (s.place t) (s.objects t) (s.began t) s.ticks s.storage

  -- What holds in every state that can be reached.
  pub record Inv (s : System) : Type 0 where
    pub serial : IsSerial db s.log s.storage.values
    pub workers : (t : ℕ) → WorkerOf s t
    pub asked : Holds requested s.txn_requests s.place
    pub waiting : Holds executed s.completed_txns s.place

  -- Nothing but `t` differs between the two states.
  abbrev Same : ℕ → System → System → Type 0
  Same t s s' =
      (j : ℕ)
      → (t == j) ≡ false
      → (s'.place j ≡ s.place j) × (s'.objects j ≡ s.objects j) × (s'.began j ≡ s.began j)

  pub workers_after :
      (t : ℕ) (s s' : System)
      → Same t s s'
      → Passes times s.ticks s'.ticks s.storage s'.storage
      → ((j : ℕ) → WorkerOf s j)
      → WorkerOf s' t
      → (j : ℕ) → WorkerOf s' j
  workers_after t s s' same passes w new j = elim (Bool-cases (t == j)) [
    | inl e ↦ subst (WorkerOf s') (==→≡ t j e) new
    | inr e ↦
        let (p, o, b) = same j e in
        rw (p, o, b)
          (Worker-later times (s.place j) (s.objects j) (s.began j) s.ticks s'.ticks s.storage
            s'.storage passes (w j))
  ]

  -- Nothing is written and at most one reading of the clock made.
  pub stays : (ticks ticks' : ℕ) (st : Storage) → ticks ≤ ticks' → Passes times ticks ticks' st st
  unfolding write_all
  stays ticks ticks' st le = (le, λ i lt. ([], tt, refl))

  pub submits-Inv :
      (t : ℕ) (s : System)
      → s.place t ≡ outside
      → Inv s
      → Inv (move t requested (new_txn_request t s.shared) s)
  unfolding new_txn_request push
  submits-Inv t s e inv = record {
    serial = inv.serial;
    workers =
        workers_after t s (move t requested (new_txn_request t s.shared) s)
          (λ j n. (rw n refl, rw n refl, refl)) (stays s.ticks s.ticks s.storage (omega arith))
          inv.workers (rw (==_self t) tt);
    asked = Holds-push requested s.txn_requests s.place t (λ e'. ground (arith, e, e')) inv.asked;
    waiting =
        Holds-move executed s.completed_txns s.place t requested (λ e'. ground (arith, e, e'))
          inv.waiting;
  }

  pub hands-Inv :
      (t : ℕ) (q : List ℕ) (s : System)
      → s.txn_requests ≡ t ∷ q
      → Inv s
      → Inv (move t queued (record s.shared { txn_requests = q }) s)
  hands-Inv t q s e inv =
      let s' = move t queued (record s.shared { txn_requests = q }) s in
      let asked = rw e at inv.asked in
      let here = asked.1 t (ground arith) in
      record {
        serial = inv.serial;
        workers =
            workers_after t s s' (λ j n. (rw n refl, refl, refl))
              (stays s.ticks s.ticks s.storage (omega arith)) inv.workers (rw (==_self t) tt);
        asked = Holds-pop requested q s.place t queued asked;
        waiting =
            Holds-move executed s.completed_txns s.place t queued (λ e'. ground (arith, here, e'))
              inv.waiting;
      }

  pub begins-Inv :
      (t : ℕ) (s : System)
      → s.place t ≡ queued
      → Inv s
      → Inv
          (record (move t (reading (keys_of (txn_at s.shared t))) (begin_txn times t s.shared) s) {
            began = update s.began t (txn_at s.shared t);
          })
  unfolding begin_txn fetch_all
  begins-Inv t s e inv =
      let s' =
        record (move t (reading (keys_of (txn_at s.shared t))) (begin_txn times t s.shared) s) {
          began = update s.began t (txn_at s.shared t);
        } in
      record {
        serial = inv.serial;
        workers =
            workers_after t s s' (λ j n. (rw n refl, rw n refl, rw n refl))
              (stays s.ticks (s.ticks + 1) s.storage (omega arith)) inv.workers
              (rw (==_self t) (
                s.ticks,
                [],
                (txn_at s.shared t).reads,
                omega arith,
                refl,
                refl,
                λ st later old. refl,
              ));
        asked =
            Holds-move requested s.txn_requests s.place t _ (λ e'. ground (arith, e, e')) inv.asked;
        waiting =
            Holds-move executed s.completed_txns s.place t _ (λ e'. ground (arith, e, e'))
              inv.waiting;
      }

  pub fetches-Inv :
      (t k : ℕ) (ks : List ℕ) (s : System)
      → s.place t ≡ reading (k ∷ ks)
      → Inv s
      → Inv (move t (reading ks) (read_key t k s.storage s.shared) s)
  unfolding read_key
  fetches-Inv t k ks s e inv =
      let s' = move t (reading ks) (read_key t k s.storage s.shared) s in
      record {
        serial = inv.serial;
        workers =
            workers_after t s s' (λ j n. (rw n refl, rw n refl, refl))
              (stays s.ticks s.ticks s.storage (omega arith)) inv.workers
              (rw (==_self t) (
                Worker-fetch times k ks (s.objects t) (s.began t) s.ticks s.storage
                  (rw e at (inv.workers t))));
        asked =
            Holds-move requested s.txn_requests s.place t _ (λ e'. ground (arith, e, e')) inv.asked;
        waiting =
            Holds-move executed s.completed_txns s.place t _ (λ e'. ground (arith, e, e'))
              inv.waiting;
      }

  pub completes-Inv :
      (t : ℕ) (ran : Txn) (s : System)
      → s.place t ≡ reading []
      → run (s.objects t).logic (txn_at s.shared t) ≡ done ran
      → Inv s
      → Inv (move t executed (complete_txn t ran s.shared) s)
  unfolding complete_txn push
  completes-Inv t ran s e ends inv =
      let s' = move t executed (complete_txn t ran s.shared) s in
      record {
        serial = inv.serial;
        workers =
            workers_after t s s' (λ j n. (rw n refl, rw n refl, refl))
              (stays s.ticks s.ticks s.storage (omega arith)) inv.workers
              (rw (==_self t) (
                Worker-complete times (s.objects t) (s.began t) ran s.ticks s.storage ends
                  (rw e at (inv.workers t))));
        asked =
            Holds-move requested s.txn_requests s.place t _ (λ e'. ground (arith, e, e')) inv.asked;
        waiting =
            Holds-push executed s.completed_txns s.place t (λ e'. ground (arith, e, e'))
              inv.waiting;
      }
