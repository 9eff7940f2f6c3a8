-- ===== src/Processor/Exclusive/FinishSteps.antt =====
-- The exclusive scheduler: the end of a transaction keeps what holds in every state.
use database_concurrency_con.Prelude.{
  ℕ, ◌≡◌, refl, ap, ◌∙◌, sym, Bool, true, false, List, ◌∷◌, some, Option-cases, contains,
  contains-append, update, Bool-cases, inl, inr, ◌==◌, ==_self, arith, done,
}
use database_concurrency_con.Txn.{TxnStatus, committed, aborted}
use database_concurrency_con.Storage.{Storage}
use database_concurrency_con.Atomic.Queue.{push}
use database_concurrency_con.LockManager.Requests.{Tables}
use database_concurrency_con.LockManager.Implementations.{manager_a}
use database_concurrency_con.Processor.Objects.{Shared, txn_at, set_status}
use database_concurrency_con.Processor.Execution.{apply_writes}
use database_concurrency_con.Processor.Locking.{release_all, give_result, settle, finish_txn}
use database_concurrency_con.Processor.Workers.{
  Place, outside, requested, locking, queued, executed, reading, keys_of,
}
use database_concurrency_con.Places.{Holds, Holds-move, Holds-pop}
use database_concurrency_con.Processor.Serializability.{
  Database, IsSerial, Entry, apply_writes-written, written_untouched,
}
use database_concurrency_con.Processor.Exclusive.Views.{has}
use database_concurrency_con.Processor.Exclusive.Moves.{
  IsOrderlyAt, release_all-append, leave-IsOrderly,
}
use database_concurrency_con.Processor.Exclusive.Progress.{Worker, executed-keys, executed_alone}
use database_concurrency_con.Processor.Exclusive.System.{System, entry_of, finished}
use database_concurrency_con.Processor.Exclusive.Invariant.{Inv, Same, sets_after, workers_after}

-- The loops that release all locks of a transaction, and its result.
give_result_lem :
    (t : ℕ) (p : Shared) (s s' : Tables)
    → release_all manager_a t (keys_of (txn_at p t)) s ≡ some s'
    → give_result manager_a t p s ≡ some (record p { txn_results = push t p.txn_results }, s')
unfolding give_result
give_result_lem t p s s' e =
    let e' = sym (release_all-append t (txn_at p t).readset (txn_at p t).writeset s) ∙ e in
    elim (Option-cases (release_all manager_a t (txn_at p t).readset s)) [
      | inl none_left ↦ ground (arith, rw none_left at e')
      | inr (s₁, e₁) ↦ rw (e₁, rw e₁ at e') refl
    ]

finish_txn_lem :
    (times : ℕ → ℕ) (t : ℕ) (p p₁ : Shared) (st st₁ : Storage) (s s' : Tables)
    → settle manager_a times (txn_at p t).status t p st ≡ done (p₁, st₁)
    → release_all manager_a t (keys_of (txn_at p₁ t)) s ≡ some s'
    → finish_txn manager_a times t p st s
      ≡ done (some ((record p₁ { txn_results = push t p₁.txn_results }, s'), st₁))
unfolding finish_txn
finish_txn_lem times t p p₁ st st₁ s s' settles ran =
    rw (finish_txn, settles, give_result_lem t p₁ s s' ran) refl

stays_has : (p : Place) (ready : Bool) → has p false ≡ true → has p ready ≡ true
stays_has outside ready e = e
stays_has requested ready e = e
stays_has locking ready e = ground (arith, e)
stays_has queued ready e = e
stays_has executed ready e = e
stays_has (reading ks) ready e = e

module _ (keys : ℕ → List ℕ) (place : ℕ → Place) (s : Tables) where
  -- Two transactions that have their locks have no key in common.
  apart :
      (t j k : ℕ)
      → IsOrderlyAt keys place s.ready_txns s
      → has (place t) false ≡ true
      → has (place j) false ≡ true
      → (t == j) ≡ false
      → contains k (keys j) ≡ true
      → contains k (keys t) ≡ false
  apart t j k o has_t has_j n mine = elim (Bool-cases (contains k (keys t))) [
    | inl theirs ↦
        let (q, e) =
          o.fronts t k
            (ground (arith, theirs, stays_has (place t) (contains t s.ready_txns) has_t)) in
        let (q', e') =
          o.fronts j k
            (ground (arith, mine, stays_has (place j) (contains j s.ready_txns) has_j)) in
        ground (arith, e, e', n, ==_self t)
    | inr free ↦ free
  ]

module _ (keys : ℕ → List ℕ) (db : Database) (t : ℕ) (q : List ℕ) (s : System) where
  abbrev emptied : List ℕ → Shared
  emptied c = record s.shared { completed_txns = c }

  abbrev ended : List ℕ → TxnStatus → ℕ → Shared
  ended c status ticks =
      let p = record (set_status t status (emptied c)) { ticks = ticks } in
      record p { txn_results = push t p.txn_results }

  abbrev left : Shared → Tables → Storage → List Entry → System
  left p tables st log = record s {
    shared = p;
    tables = tables;
    storage = st;
    place = update s.place t outside;
    log = log;
  }

  module _ (e : s.completed_txns ≡ t ∷ q) (inv : Inv keys db s) where
    executed_first : Holds executed (t ∷ q) s.place
    executed_first = rw e at inv.waiting

    at_end : s.place t ≡ executed
    at_end = executed_first.1 t (ground (arith, ==_self t))

    worker : Worker executed (s.objects t) (s.began t) s.storage
    worker = rw at_end at (inv.workers t)

    left-Inv :
        (status : TxnStatus) (ticks : ℕ) (s' : Tables) (st : Storage) (log : List Entry)
        → Holds locking s'.ready_txns s.place
        → IsOrderlyAt keys (update s.place t outside) s'.ready_txns s'
        → IsSerial db log st.values
        → ((k : ℕ) → contains k (keys t) ≡ false → st.values k ≡ s.storage.values k)
        → Inv keys db (left (ended q status ticks) s' st log)
    unfolding push
    left-Inv status ticks s' st log h o serial values =
        let s₁ = left (ended q status ticks) s' st log in
        let same : Same keys db t s s₁ = λ j n. (rw n refl, rw n refl, refl) in
        record {
          serial = serial;
          sets = sets_after keys db t s s₁ same (rw (txn_at, ==_self t) refl) inv.sets;
          workers =
              workers_after keys db t s s₁ same
                (λ j n has_j k m. values k (
                  apart keys s.place s.tables t j k inv.orderly (rw at_end refl) has_j n
                    (rw (inv.sets j) at m)))
                inv.workers (rw (==_self t) tt);
          orderly = o;
          asked =
              Holds-move requested s.txn_requests s.place t outside
                (λ e'. ground (arith, at_end, e')) inv.asked;
          readies =
              Holds-move locking s'.ready_txns s.place t outside (λ e'. ground (arith, at_end, e'))
                h;
          waiting = Holds-pop executed q s.place t outside executed_first;
        }

    -- The end of the transaction that finished first gives a result, whatever else has finished, and
    -- keeps what holds.
    pub finish_txn-Inv :
        (times : ℕ → ℕ)
        → (r : (Shared × Tables) × Storage) × (finish_txn manager_a times t
              (record s.shared { completed_txns = q })
              s.storage
              s.tables
            ≡ done (some r))
          × ((c : List ℕ)
              → finish_txn manager_a times t
                  (record s.shared { completed_txns = c })
                  s.storage
                  s.tables
                ≡ done (some ((record r.0.0 { completed_txns = c }, r.0.1), r.1)))
          × (r.0.0.completed_txns ≡ q)
          × Inv keys db (finished t r s)
    unfolding settle
    finish_txn-Inv times =
        let txn = txn_at s.shared t in
        let (same, within, vote) = executed-keys (s.objects t) (s.began t) s.storage worker in
        let distinct = rw (sym same ∙ inv.sets t) at worker.0.0 in
        let (s', ran, h, o) =
          leave-IsOrderly keys s.place t s.tables at_end distinct inv.readies inv.orderly in
        let ran' : release_all manager_a t (keys_of txn) s.tables ≡ some s' = rw (inv.sets t) ran in
        elim vote [
          | inl commits ↦
              let written_to = apply_writes times txn.writes s.ticks s.storage in
              let runs : (c : List ℕ)
                  → finish_txn manager_a times t (emptied c) s.storage s.tables
                    ≡ done (some ((ended c committed written_to.1, s'), written_to.0)) =
                λ c.
                  finish_txn_lem times t (emptied c)
                    (record (set_status t committed (emptied c)) { ticks = written_to.1 }) s.storage
                    written_to.0 s.tables s' (rw commits refl) (rw (txn_at, ==_self t) ran') in
              let values : (k : ℕ)
                  → contains k (keys t) ≡ false
                  → written_to.0.values k ≡ s.storage.values k =
                λ k out.
                  ap (λ (db : Database). db k)
                    (apply_writes-written times txn.writes s.ticks s.storage)
                  ∙ written_untouched txn.writes s.storage.values k (
                      within k (
                        ground (
                          arith,
                          rw (sym (inv.sets t)) at out,
                          contains-append k txn.readset txn.writeset,
                        ))) in
              (
                ((ended q committed written_to.1, s'), written_to.0),
                runs q,
                runs,
                refl,
                rw commits (
                    left-Inv committed written_to.1 s' written_to.0 (entry_of t s ∷ s.log) h o
                      (
                        s.storage.values,
                        inv.serial,
                        (
                          executed_alone (s.objects t) (s.began t) s.storage worker,
                          commits,
                          apply_writes-written times txn.writes s.ticks s.storage,
                        ),
                      )
                      values),
              )
          | inr aborts ↦
              let runs : (c : List ℕ)
                  → finish_txn manager_a times t (emptied c) s.storage s.tables
                    ≡ done (some ((ended c aborted s.ticks, s'), s.storage)) =
                λ c.
                  finish_txn_lem times t (emptied c) (set_status t aborted (emptied c)) s.storage
                    s.storage s.tables s' (rw aborts refl) (rw (txn_at, ==_self t) ran') in
              (
                ((ended q aborted s.ticks, s'), s.storage),
                runs q,
                runs,
                refl,
                rw aborts
                    (left-Inv aborted s.ticks s' s.storage s.log h o inv.serial (λ k out. refl)),
              )
        ]
