-- ===== src/Processor/Occ/Provenance.antt =====
-- The optimistic scheduler: the committed transactions are those that clients handed in, and what an
-- earlier run has left of them is of keys that they write again.
use database_concurrency_con.Prelude.{
  All, ℕ, ◌≡◌, refl, ◌∙◌, subst, Bool, true, false, List, [], ◌∷◌, Bool-cases, inl, inr, ◌==◌, ==→≡,
  ==_self, arith, Outcome, done,
}
use database_concurrency_con.Txn.{
  Txn, TxnStatus, incomplete, completed_c, completed_a, committed, aborted,
}
use database_concurrency_con.TxnTypes.Tidy.{Tidy, unwritten-Tidy, run-Tidy}
use database_concurrency_con.Processor.Execution.Afresh.{Ready}
use database_concurrency_con.TxnTypes.{Object}
use database_concurrency_con.TxnTypes.Keeps.{run-keeps}
use database_concurrency_con.Storage.{Storage}
use database_concurrency_con.Processor.Objects.{Shared, txn_at}
use database_concurrency_con.Processor.Execution.{commit_txn, abort_txn}
use database_concurrency_con.Processor.Workers.{
  Place, outside, requested, queued, executed, reading, locking,
}
use database_concurrency_con.Processor.Serializability.{Entry}
use database_concurrency_con.Processor.Occ.{is_valid, occ_finish, occ_decide, restart}
use database_concurrency_con.Processor.Occ.System.{
  System, finished, Step, submits, hands, begins, fetches, completes, finishes,
}
use database_concurrency_con.Places.{Holds}
use database_concurrency_con.Processor.Occ.Origins.{
  SameSets, From, new_txn_request_others, restart_others, begin_txn_others, read_key_others,
  complete_txn_others, new_txn_request_lem, new_txn_request-Stays, begin_txn-Stays, read_key-Stays,
  complete_txn_lem, restart-Ready, restart-SameSets, begin_txn-SameSets, read_key-SameSets,
  complete_txn-SameSets,
}

-- Each committed transaction began as what the client handed in.
abbrev pub Originate : List Entry → List (Txn × Bool) → Type 0
Originate [] [] = Unit
Originate (e ∷ log) ((handed, restarted) ∷ origins) =
    From e.before handed restarted × Originate log origins
Originate [] (o ∷ origins) = ⊥
Originate (e ∷ log) [] = ⊥

-- What is known of a transaction at a place, and of what it was when it began.
abbrev Origin : Place → Txn → Txn → Txn → Bool → Type 0
Origin outside txn began handed restarted = Unit
Origin requested txn began handed restarted = From txn handed restarted
Origin queued txn began handed restarted = From txn handed restarted
Origin (reading ks) txn began handed restarted = From began handed restarted × SameSets txn handed
Origin executed txn began handed restarted = From began handed restarted × SameSets txn handed
Origin locking txn began handed restarted = Unit

-- Whether a transaction at a place, and what it was when it began, can run as if nothing were left over.
abbrev Readiness : Place → Object → Txn → Type 0
Readiness outside o began = Unit
Readiness requested o began = Ready o.logic o.txn
Readiness queued o began = Ready o.logic o.txn
Readiness (reading ks) o began = Ready o.logic began × Ready o.logic o.txn
Readiness executed o began = Ready o.logic began × Tidy o.logic o.txn
Readiness locking o began = Unit

abbrev OriginOf : System → ℕ → Type 0
OriginOf s t =
    Origin (s.place t) (txn_at s.shared t) (s.began t) (s.handed t) (s.restarted t)
    × Readiness (s.place t) (s.objects t) (s.began t)

pub record Origins (s : System) : Type 0 where
  pub each : (t : ℕ) → OriginOf s t
  pub past : Originate s.log s.origins
  pub ready : All (λ e. Ready e.logic e.before) s.log

-- Nothing but `t` differs between the two states.
others :
    (t : ℕ) (s s' : System)
    → ((j : ℕ)
        → (t == j) ≡ false
        → (s'.place j ≡ s.place j)
          × (s'.objects j ≡ s.objects j)
          × (s'.began j ≡ s.began j)
          × (s'.handed j ≡ s.handed j)
          × (s'.restarted j ≡ s.restarted j))
    → ((j : ℕ) → OriginOf s j)
    → OriginOf s' t
    → (j : ℕ) → OriginOf s' j
others t s s' same old new j = elim (Bool-cases (t == j)) [
  | inl e ↦ subst (OriginOf s') (==→≡ t j e) new
  | inr e ↦ let (p, o, b, h, r) = same j e in rw (p, txn_at, o, b, h, r) (old j)
]

-- A step of `t` that commits nothing.
step_of :
    (t : ℕ) (s s' : System)
    → ((j : ℕ)
        → (t == j) ≡ false
        → (s'.place j ≡ s.place j)
          × (s'.objects j ≡ s.objects j)
          × (s'.began j ≡ s.began j)
          × (s'.handed j ≡ s.handed j)
          × (s'.restarted j ≡ s.restarted j))
    → (s'.log ≡ s.log)
    → (s'.origins ≡ s.origins)
    → OriginOf s' t
    → Origins s
    → Origins s'
step_of t s s' same l o new old = record {
  each = others t s s' same old.each new;
  past = rw (l, o) old.past;
  ready = rw l old.ready;
}

returns : {A : Type 0} {a a' : A} → ◌≡◌ {A = Outcome A} (done a) (done a') → a ≡ a'
returns e = ground (arith, e)

module _ (times : ℕ → ℕ) (t : ℕ) (s : System) (old : Origins s) where
  Origin-at :
      (p : Place)
      → s.place t ≡ p
      → Origin p (txn_at s.shared t) (s.began t) (s.handed t) (s.restarted t)
        × Readiness p (s.objects t) (s.began t)
  Origin-at p e = rw e at (old.each t)

  finishes-Origins :
      (q : List ℕ) (r : Shared × Storage) (status : TxnStatus) (valid : Bool)
      → s.place t ≡ executed
      → (txn_at s.shared t).status ≡ status
      → is_valid (txn_at s.shared t) s.storage ≡ valid
      → occ_decide times status valid t (record s.shared { completed_txns = q }) s.storage ≡ done r
      → Origins (finished t r s)
  unfolding occ_decide commit_txn abort_txn
  finishes-Origins q r completed_c true there st va ends =
      let ((began, _), (ready, _)) = Origin-at executed there in
      subst (λ r. Origins (finished t r s)) (returns ends)
        (record {
          each =
              others t s
                (finished t (commit_txn times t (record s.shared { completed_txns = q }) s.storage)
                  s)
                (λ j n. (rw n refl, rw n refl, refl, refl, rw n refl)) old.each
                (rw (st, va, ==_self t) (tt, tt));
          past = rw (st, va) (began, old.past);
          ready = rw (st, va) (ready, old.ready);
        })
  finishes-Origins q r completed_c false there st va ends =
      let ((_, sets), (_, tidy)) = Origin-at executed there in
      let again = restart-SameSets t (record s.shared { completed_txns = q }) in
      let (logic, ready) = restart-Ready t (record s.shared { completed_txns = q }) in
      subst (λ r. Origins (finished t r s)) (returns ends)
        (record {
          each =
              others t s
                (finished t (restart t (record s.shared { completed_txns = q }), s.storage) s)
                (λ j n. (
                  rw n refl,
                  restart_others t (record s.shared { completed_txns = q }) j n,
                  refl,
                  refl,
                  rw n refl,
                ))
                old.each
                (rw (st, va, ==_self t)
                  (
                    ((again.0 ∙ sets.0, again.1 ∙ sets.1), λ e. ground (arith, e)),
                    rw logic (ready tidy),
                  ));
          past = rw (st, va) old.past;
          ready = rw (st, va) old.ready;
        })
  finishes-Origins q r completed_a valid there st va ends =
      subst (λ r. Origins (finished t r s)) (returns ends)
        (record {
          each =
              others t s
                (finished t (abort_txn t (record s.shared { completed_txns = q }), s.storage) s)
                (λ j n. (rw n refl, rw n refl, refl, refl, rw n refl)) old.each
                (rw (st, ==_self t) (tt, tt));
          past = rw st old.past;
          ready = rw st old.ready;
        })
  finishes-Origins q r incomplete valid there st va ends = ground (arith, ends)
  finishes-Origins q r committed valid there st va ends = ground (arith, ends)
  finishes-Origins q r aborted valid there st va ends = ground (arith, ends)

pub Step-Origins :
    (times : ℕ → ℕ) {s s' : System}
    → Holds executed s.completed_txns s.place
    → Holds requested s.txn_requests s.place
    → Step times s s'
    → Origins s
    → Origins s'
unfolding occ_finish
Step-Origins times {s} waiting asked (submits t e fresh unwritten) old =
    let (logic, ready) = new_txn_request-Stays t s.shared in
    step_of t s _
      (λ j n. (rw n refl, new_txn_request_others t s.shared j n, refl, rw n refl, rw n refl)) refl
      refl
      (rw (==_self t) (
        new_txn_request_lem t s.shared,
        rw logic (ready (fresh, unwritten-Tidy (s.objects t).logic _ unwritten)),
      ))
      old
Step-Origins times {s} waiting asked (hands t q e) old =
    let there = (rw e at asked).1 t (ground arith) in
    step_of t s _ (λ j n. (rw n refl, refl, refl, refl, refl)) refl refl
      (rw (==_self t) (Origin-at times t s old requested there)) old
Step-Origins times {s} waiting asked (begins t e) old =
    let (from, is_ready) = Origin-at times t s old queued e in
    let same = begin_txn-SameSets times t s.shared in
    let (logic, ready) = begin_txn-Stays times t s.shared in
    step_of t s _ (λ j n. (rw n refl, begin_txn_others times t s.shared j n, rw n refl, refl, refl))
      refl refl
      (rw (==_self t)
        ((from, (same.0 ∙ from.0.0, same.1 ∙ from.0.1)), rw logic (is_ready, ready is_ready)))
      old
Step-Origins times {s} waiting asked (fetches t k ks e) old =
    let ((from, sets), (began, is_ready)) = Origin-at times t s old (reading (k ∷ ks)) e in
    let same = read_key-SameSets t k s.storage s.shared in
    let (logic, ready) = read_key-Stays t k s.storage s.shared in
    step_of t s _ (λ j n. (rw n refl, read_key_others t k s.storage s.shared j n, refl, refl, refl))
      refl refl
      (rw (==_self t)
        ((from, (same.0 ∙ sets.0, same.1 ∙ sets.1)), rw logic (began, ready is_ready)))
      old
Step-Origins times {s} waiting asked (completes t ran e ends) old =
    let ((from, sets), (began, is_ready)) = Origin-at times t s old (reading []) e in
    let (reads, writes, _) = run-keeps (s.objects t).logic _ ran ends in
    let same = complete_txn-SameSets t ran s.shared in
    let (logic, txn) = complete_txn_lem t ran s.shared in
    step_of t s _ (λ j n. (rw n refl, complete_txn_others t ran s.shared j n, refl, refl, refl))
      refl refl
      (rw (==_self t) (
        (from, (same.0 ∙ reads ∙ sets.0, same.1 ∙ writes ∙ sets.1)),
        rw (logic, txn) (began, run-Tidy (s.objects t).logic _ ran ends is_ready.1),
      ))
      old
Step-Origins times {s} waiting asked (finishes t q r e ends) old =
    finishes-Origins times t s old q r _ _ ((rw e at waiting).1 t (ground arith)) refl refl ends
