-- ===== src/Processor/Exclusive/StartSteps.antt =====
-- The exclusive scheduler: the start of a transaction keeps what holds in every state.
use database_concurrency_con.Prelude.{
  ℕ, ◌≡◌, refl, ap, ◌∙◌, sym, subst, true, false, List, [], ◌∷◌, ◌++◌, some, length, length-append,
  contains, contains-append, update, Bool-cases, inl, inr, ==_self, arith,
}
use database_concurrency_con.Txn.{Txn}
use database_concurrency_con.Atomic.Queue.{push}
use database_concurrency_con.LockManager.Requests.{Tables}
use database_concurrency_con.LockManager.Implementations.{manager_a}
use database_concurrency_con.Processor.Objects.{Shared, txn_at, new_txn_request}
use database_concurrency_con.Processor.Locking.{start_txn, after_acquire, is_several}
use database_concurrency_con.Processor.Workers.{Place, requested, locking, executed, keys_of}
use database_concurrency_con.Places.{
  Holds, absent, kept, Holds-move, Holds-push, Holds-pop, Holds-rotate,
}
use database_concurrency_con.Processor.Serializability.{Database}
use database_concurrency_con.Processor.Exclusive.Orderly.{only}
use database_concurrency_con.Processor.Exclusive.Acquires.{Taken, Refused}
use database_concurrency_con.Processor.Exclusive.Starts.{Waits, acquire_all-Starts}
use database_concurrency_con.Processor.Exclusive.Arrivals.{absent_everywhere}
use database_concurrency_con.Processor.Exclusive.Moves.{
  IsOrderlyAt, ready-IsOrderly, idle_at, grant-IsOrderly, refuse-IsOrderly, wait-IsOrderly,
}
use database_concurrency_con.Processor.Exclusive.Progress.{IsNew}
use database_concurrency_con.Processor.Exclusive.System.{System, place_after, started}
use database_concurrency_con.Processor.Exclusive.Invariant.{Inv, Same, sets_after, workers_after}

only_one : (k : ℕ) (ks : List ℕ) → only k ks ≡ true → length ks ≡ 1
only_one k [] e = ground (arith, e)
only_one k (j ∷ []) e = refl
only_one k (i ∷ j ∷ ks) e = ground (arith, e)

several_keys :
    (txn : Txn) → is_several manager_a txn ≡ true → (k : ℕ) → only k (keys_of txn) ≡ false
several_keys txn several k = elim (Bool-cases (only k (keys_of txn))) [
  | inl e ↦
      ground (arith, several, only_one k (keys_of txn) e, length-append txn.readset txn.writeset)
  | inr e ↦ e
]

module _ (keys : ℕ → List ℕ) (db : Database) (t : ℕ) (q : List ℕ) (s : System) where
  popped : Shared
  popped = record s.shared { txn_requests = q }

  -- The system after the start, with the place given.
  abbrev placed : Place → Shared × Tables → System
  placed p r = record s { shared = r.0; tables = r.1; place = update s.place t p }

  module _ (e : s.txn_requests ≡ t ∷ q) (inv : Inv keys db s) where
    asked_first : Holds requested (t ∷ q) s.place
    asked_first = rw e at inv.asked

    at_start : s.place t ≡ requested
    at_start = asked_first.1 t (ground (arith, ==_self t))

    not_ready : contains t s.tables.ready_txns ≡ false
    not_ready =
        absent locking s.tables.ready_txns s.place t (λ e'. ground (arith, at_start, e'))
          inv.readies

    is_new : IsNew (txn_at s.shared t)
    is_new = rw at_start at (inv.workers t)

    granted-Inv :
        (s' : Tables)
        → Taken t (keys_of (txn_at s.shared t)) s.tables s'
        → Inv keys db (placed locking (popped, record s' { ready_txns = s'.ready_txns ++ t ∷ [] }))
    unfolding popped
    granted-Inv s' taken =
        let r : Shared × Tables = (popped, record s' { ready_txns = s'.ready_txns ++ t ∷ [] }) in
        let same : Same keys db t s (placed locking r) = λ j n. (rw n refl, refl, refl) in
        let taken' = rw (inv.sets t) at taken in
        let o =
          grant-IsOrderly keys s.place t s.tables.ready_txns s.tables s' at_start taken'
            inv.orderly in
        let ready' : s'.ready_txns ≡ s.tables.ready_txns = taken.1.0 in
        record {
          serial = inv.serial;
          sets = inv.sets;
          workers =
              workers_after keys db t s (placed locking r) same (λ j n h k m. refl) inv.workers
                (rw (==_self t) is_new);
          orderly = ready-IsOrderly keys _ _ s' (s'.ready_txns ++ t ∷ []) (
              subst (λ ready. IsOrderlyAt keys (update s.place t locking) (ready ++ t ∷ []) s')
                (sym ready') o);
          asked = Holds-pop requested q s.place t locking asked_first;
          readies =
              subst (λ ready. Holds locking (ready ++ t ∷ []) (update s.place t locking))
                (sym ready')
                (Holds-push locking s.tables.ready_txns s.place t
                  (λ e'. ground (arith, at_start, e')) inv.readies);
          waiting =
              Holds-move executed s.completed_txns s.place t locking
                (λ e'. ground (arith, at_start, e')) inv.waiting;
        }

    Refused-Inv :
        (s' : Tables)
        → is_several manager_a (txn_at s.shared t) ≡ true
        → Refused t s.tables s'
        → Inv keys db (placed requested (new_txn_request t popped, s'))
    unfolding popped new_txn_request push
    Refused-Inv s' several refused =
        let r : Shared × Tables = (new_txn_request t popped, s') in
        let same : Same keys db t s (placed requested r) = λ j n. (rw n refl, rw n refl, refl) in
        let several' : (k : ℕ) → only k (keys t) ≡ false =
          rw (inv.sets t) at (several_keys (txn_at s.shared t) several) in
        let o =
          refuse-IsOrderly keys s.place t s.tables.ready_txns s.tables s' at_start several' refused
            inv.orderly in
        record {
          serial = inv.serial;
          sets =
              sets_after keys db t s (placed requested r) same (rw (txn_at, ==_self t) refl)
                inv.sets;
          workers =
              workers_after keys db t s (placed requested r) same (λ j n h k m. refl) inv.workers
                (rw (==_self t) is_new);
          orderly =
              subst (λ ready. IsOrderlyAt keys (update s.place t requested) ready s')
                (sym refused.0) o;
          asked = Holds-rotate requested q s.place t asked_first;
          readies =
              subst (λ ready. Holds locking ready (update s.place t requested)) (sym refused.0)
                (Holds-move locking s.tables.ready_txns s.place t requested
                  (λ e'. ground (arith, at_start, e')) inv.readies);
          waiting =
              Holds-move executed s.completed_txns s.place t requested
                (λ e'. ground (arith, at_start, e')) inv.waiting;
        }

    Waits-Inv :
        (s' : Tables) (k : ℕ)
        → keys_of (txn_at s.shared t) ≡ k ∷ []
        → Waits t k s.tables s'
        → s'.ready_txns ≡ s.tables.ready_txns
        → Inv keys db (placed locking (popped, s'))
    unfolding popped
    Waits-Inv s' k one waits ready' =
        let r : Shared × Tables = (popped, s') in
        let same : Same keys db t s (placed locking r) = λ j n. (rw n refl, refl, refl) in
        let o =
          wait-IsOrderly keys s.place t s.tables.ready_txns s.tables s' at_start k
            (sym (inv.sets t) ∙ one) not_ready waits inv.orderly in
        record {
          serial = inv.serial;
          sets = inv.sets;
          workers =
              workers_after keys db t s (placed locking r) same (λ j n h k m. refl) inv.workers
                (rw (==_self t) is_new);
          orderly =
              subst (λ ready. IsOrderlyAt keys (update s.place t locking) ready s') (sym ready') o;
          asked = Holds-pop requested q s.place t locking asked_first;
          readies =
              subst (λ ready. Holds locking ready (update s.place t locking)) (sym ready')
                (
                  inv.readies.0,
                  kept locking s.tables.ready_txns s.place t locking not_ready inv.readies,
                );
          waiting =
              Holds-move executed s.completed_txns s.place t locking
                (λ e'. ground (arith, at_start, e')) inv.waiting;
        }

    place_same :
        (p : Place) (r : Shared × Tables)
        → place_after t (is_several manager_a (txn_at s.shared t)) r.1 ≡ p
        → Inv keys db (placed p r)
        → Inv keys db (started t r s)
    place_same p r e' = subst (λ p. Inv keys db (placed p r)) (sym e')

    -- The start of the request in front gives a result, which keeps what holds.
    pub start_txn-Inv :
        (r : Shared × Tables) × (start_txn manager_a t
            (record s.shared { txn_requests = q })
            s.tables
          ≡ some r)
        × Inv keys db (started t r s)
    unfolding start_txn after_acquire popped
    start_txn-Inv =
        let txn = txn_at s.shared t in
        let idle =
          absent_everywhere keys _ _ t s.tables s.tables
            (idle_at keys s.place t s.tables.ready_txns s.tables s.tables at_start) inv.orderly in
        let (s', ends) = acquire_all-Starts t txn s.tables is_new.0 idle in
        elim ends [
          | inl (ran, taken) ↦
              let r : Shared × Tables =
                (popped, record s' { ready_txns = s'.ready_txns ++ t ∷ [] }) in
              (
                r,
                rw ran refl,
                place_same locking r
                    (ground (arith, contains-append t s'.ready_txns (t ∷ []), ==_self t))
                    (granted-Inv s' taken),
              )
          | inr (inl (ran, several, refused)) ↦
              let r : Shared × Tables = (new_txn_request t popped, s') in
              (
                r,
                rw (ran, several) refl,
                place_same requested r (ground (arith, several, refused.0, not_ready))
                    (Refused-Inv s' several refused),
              )
          | inr (inr (ran, few, (k, one, waits))) ↦
              let r : Shared × Tables = (popped, s') in
              let ready' : s'.ready_txns ≡ s.tables.ready_txns =
                ap (λ (s : Tables). s.ready_txns) waits.3 in
              (
                r,
                rw (ran, few) refl,
                place_same locking r (ground (arith, few, ready', not_ready))
                    (Waits-Inv s' k one waits ready'),
              )
        ]
