-- ===== src/Processor/Exclusive/Invariant.antt =====
-- The exclusive scheduler: what holds in every state, and that the clients and the threads keep it.
use database_concurrency_con.Prelude.{
  ℕ, ◌≡◌, refl, ◌∙◌, subst, true, false, List, ◌∷◌, contains, Bool-cases, inl, inr, ◌==◌, ==→≡,
  ==_self, arith,
}
use database_concurrency_con.Atomic.Queue.{push}
use database_concurrency_con.Processor.Objects.{txn_at, new_txn_request}
use database_concurrency_con.Processor.Workers.{
  outside, requested, locking, queued, executed, keys_of,
}
use database_concurrency_con.Places.{Holds, Holds-move, Holds-push, Holds-pop}
use database_concurrency_con.Processor.Serializability.{Database, IsSerial}
use database_concurrency_con.Processor.Exclusive.Views.{has}
use database_concurrency_con.Processor.Exclusive.Moves.{
  IsOrderlyAt, ready-IsOrderly, move-IsOrderly, hand-IsOrderly,
}
use database_concurrency_con.Processor.Exclusive.Progress.{IsNew, Worker, Worker-values}
use database_concurrency_con.Processor.Exclusive.System.{System, move}

module _ (keys : ℕ → List ℕ) (db : Database) where
  abbrev pub WorkerOf : System → ℕ → Type 0
  WorkerOf s t = Worker (s.place t) (s.objects t) (s.began t) s.storage

  -- What holds in every state that can be reached.
  pub record Inv (s : System) : Type 0 where
    pub serial : IsSerial db s.log s.storage.values
    pub sets : (t : ℕ) → keys_of (txn_at s.shared t) ≡ keys t
    pub workers : (t : ℕ) → WorkerOf s t
    pub orderly : IsOrderlyAt keys s.place s.tables.ready_txns s.tables
    pub asked : Holds requested s.txn_requests s.place
    pub readies : Holds locking s.tables.ready_txns s.place
    pub waiting : Holds executed s.completed_txns s.place

  -- Nothing but `t` differs between the two states.
  abbrev pub Same : ℕ → System → System → Type 0
  Same t s s' =
      (j : ℕ)
      → (t == j) ≡ false
      → (s'.place j ≡ s.place j) × (s'.objects j ≡ s.objects j) × (s'.began j ≡ s.began j)

  pub sets_after :
      (t : ℕ) (s s' : System)
      → Same t s s'
      → keys_of (txn_at s'.shared t) ≡ keys_of (txn_at s.shared t)
      → ((j : ℕ) → keys_of (txn_at s.shared j) ≡ keys j)
      → (j : ℕ) → keys_of (txn_at s'.shared j) ≡ keys j
  sets_after t s s' same kept sets j = elim (Bool-cases (t == j)) [
    | inl e ↦ subst (λ j. keys_of (txn_at s'.shared j) ≡ keys j) (==→≡ t j e) (kept ∙ sets t)
    | inr e ↦ rw (txn_at, (same j e).1) (sets j)
  ]

  pub workers_after :
      (t : ℕ) (s s' : System)
      → Same t s s'
      → ((j : ℕ)
          → (t == j) ≡ false
          → has (s.place j) false ≡ true
          → (k : ℕ) → contains k (keys_of (txn_at s.shared j)) ≡ true
          → s'.storage.values k ≡ s.storage.values k)
      → ((j : ℕ) → WorkerOf s j)
      → WorkerOf s' t
      → (j : ℕ) → WorkerOf s' j
  workers_after t s s' same values w new j = elim (Bool-cases (t == j)) [
    | inl e ↦ subst (WorkerOf s') (==→≡ t j e) new
    | inr e ↦
        let (p, o, b) = same j e in
        rw (p, o, b)
          (Worker-values (s.place j) (s.objects j) (s.began j) s.storage s'.storage (values j e)
            (w j))
  ]

  pub submits-Inv :
      (t : ℕ) (s : System)
      → s.place t ≡ outside
      → IsNew (txn_at s.shared t)
      → Inv s
      → Inv (move t requested (new_txn_request t s.shared) s)
  unfolding new_txn_request push
  submits-Inv t s e new inv =
      let s' = move t requested (new_txn_request t s.shared) s in
      let same : Same t s s' = λ j n. (rw n refl, rw n refl, refl) in
      record {
        serial = inv.serial;
        sets = sets_after t s s' same (rw (txn_at, ==_self t) refl) inv.sets;
        workers = workers_after t s s' same (λ j n h k m. refl) inv.workers (rw (==_self t) new);
        orderly =
            move-IsOrderly keys s.place t requested s.tables.ready_txns s.tables (rw e refl)
              (rw e refl) inv.orderly;
        asked =
            Holds-push requested s.txn_requests s.place t (λ e'. ground (arith, e, e')) inv.asked;
        readies =
            Holds-move locking s.tables.ready_txns s.place t requested (λ e'. ground (arith, e, e'))
              inv.readies;
        waiting =
            Holds-move executed s.completed_txns s.place t requested (λ e'. ground (arith, e, e'))
              inv.waiting;
      }

  pub hands-Inv :
      (t : ℕ) (q : List ℕ) (s : System)
      → s.tables.ready_txns ≡ t ∷ q
      → Inv s
      → Inv (record (move t queued s.shared s) { tables = record s.tables { ready_txns = q } })
  hands-Inv t q s e inv =
      let s' = record (move t queued s.shared s) { tables = record s.tables { ready_txns = q } } in
      let readies = rw e at inv.readies in
      let here = readies.1 t (ground (arith, ==_self t)) in
      let same : Same t s s' = λ j n. (rw n refl, refl, refl) in
      let orderly : IsOrderlyAt keys s.place (t ∷ q) s.tables =
        subst (λ ready. IsOrderlyAt keys s.place ready s.tables) e inv.orderly in
      let o = hand-IsOrderly keys s.place t q s.tables here orderly in
      record {
        serial = inv.serial;
        sets = inv.sets;
        workers =
            workers_after t s s' same (λ j n h k m. refl) inv.workers
              (rw (==_self t) (rw here at (inv.workers t)));
        orderly = ready-IsOrderly keys _ _ s.tables q o;
        asked =
            Holds-move requested s.txn_requests s.place t queued (λ e'. ground (arith, here, e'))
              inv.asked;
        readies = Holds-pop locking q s.place t queued readies;
        waiting =
            Holds-move executed s.completed_txns s.place t queued (λ e'. ground (arith, here, e'))
              inv.waiting;
      }
