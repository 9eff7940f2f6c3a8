-- ===== src/Processor/Mvcc/Restarts.antt =====
-- The multiversion scheduler: the checks of a transaction before its writes never fail, since the
-- oldest version of a key, which `CheckWrite` looks at, is never marked as read.
use database_concurrency_con.Prelude.{
  ℕ, ◌<◌, ◌≡◌, refl, Bool, true, false, List, [], ◌∷◌, All, arith, Bool-cases, inl, inr, ◌==◌, some,
}
use database_concurrency_con.TxnTypes.{Object}
use database_concurrency_con.MvccStorage.{MvccStorage, record_count, lock, unlock, write}
use database_concurrency_con.MvccStorage.Visibility.{versions_of}
use database_concurrency_con.MvccStorage.Checks.{IsBase, step-IsBase, base_accepts}
use database_concurrency_con.MvccStorage.Checks
use database_concurrency_con.Processor.Objects.{Shared, txn_at}
use database_concurrency_con.Processor.Mvcc.{check_all, mvcc_apply}
use database_concurrency_con.Processor.Mvcc.System.{
  Stage, outside, requested, queued, dead, fetching, reading, leaving, locking, releasing, System,
  start_state, move, Acts, begins, locks_read, reads, unlocks_read, runs, dies, locks_write, checks,
  unlocks_write, commits, restarts, submits, hands, acts, Reach, here, next,
}
use database_concurrency_con.Processor.Mvcc.Stages.{lock_inv, unlock_inv}
use database_concurrency_con.Processor.Mvcc.Invariant.{Inv}
use database_concurrency_con.Processor.Mvcc.Progress.{IsFresh, reach-Inv, All-right}

-- Whether a check before the writes has failed.
abbrev pub is_refused : Stage → Bool
is_refused outside = false
is_refused requested = false
is_refused queued = false
is_refused dead = false
is_refused (fetching ks) = false
is_refused (reading k ks) = false
is_refused (leaving k ks) = false
is_refused (locking held todo) = false
is_refused (releasing true ks) = false
is_refused (releasing false ks) = true

abbrev AllBase : MvccStorage → Type 0
AllBase st = (k : ℕ) → k < record_count → IsBase (versions_of k st)

record Accepting (s : System) : Type 0 where
  base : AllBase s.storage
  none_refused : (t : ℕ) → is_refused (s.stage t) ≡ false

mvcc_apply-AllBase :
    (id : ℕ) (writes : List (ℕ × ℕ)) (st : MvccStorage)
    → AllBase st
    → AllBase (mvcc_apply id writes st)
unfolding mvcc_apply Checks.step
mvcc_apply-AllBase id [] st h = h
mvcc_apply-AllBase id ((k, v) ∷ writes) st h =
    mvcc_apply-AllBase id writes (write k v id st)
      (λ j lt. step-IsBase j st (Checks.writes k v id) (h j lt))

check_all-AllBase :
    (id : ℕ) (ks : List ℕ) (st : MvccStorage)
    → AllBase st
    → All (λ k. k < record_count) ks
    → check_all id ks st ≡ true
unfolding check_all
check_all-AllBase id [] st h every = refl
check_all-AllBase id (k ∷ ks) st h every =
    rw (base_accepts k id _ st refl (h k every.0)) (check_all-AllBase id ks st h every.1)

move-Accepting :
    (t : ℕ) (p : Stage) (shared : Shared) (st : MvccStorage) (s : System)
    → is_refused p ≡ false
    → AllBase st
    → Accepting s
    → Accepting (move t p shared st s)
move-Accepting t p shared st s fine base acc = record {
  base = base;
  none_refused =
      λ j. elim (Bool-cases (t == j)) [ inl e ↦ rw e fine | inr e ↦ rw e (acc.none_refused j) ];
}

module _ (t : ℕ) (s : System) (inv : Inv s) (acc : Accepting s) where
  refused_at : (p : Stage) → s.stage t ≡ p → is_refused p ≡ false
  refused_at p e = rw e at (acc.none_refused t)

  locks-AllBase : (k : ℕ) (st : MvccStorage) → lock k s.storage ≡ some st → AllBase st
  locks-AllBase k st e = rw (lock_inv k s.storage st e).1 acc.base

  unlocks-AllBase : (k : ℕ) (st : MvccStorage) → unlock k s.storage ≡ some st → AllBase st
  unlocks-AllBase k st e = rw (unlock_inv k s.storage st e).1 acc.base

  verified_at :
      (held : List ℕ)
      → s.stage t ≡ locking held []
      → check_all (txn_at s.shared t).unique_id (txn_at s.shared t).writeset s.storage ≡ true
  verified_at held e =
      let (good, all) = rw e at (inv.well t) in
      check_all-AllBase _ _ s.storage acc.base
        (All-right (λ k. k < record_count) (txn_at s.shared t).readset _ good.1)

Acts-Accepting : {t : ℕ} {s s' : System} → Inv s → Acts t s s' → Accepting s → Accepting s'
unfolding Checks.step
Acts-Accepting {t} {s} inv (begins e) acc = move-Accepting t _ _ _ s refl acc.base acc
Acts-Accepting {t} {s} inv (locks_read k ks st e locks) acc =
    move-Accepting t _ _ st s refl (locks-AllBase t s inv acc k st locks) acc
Acts-Accepting {t} {s} inv (reads k ks junk e) acc =
    move-Accepting t _ _ _ s refl
      (λ j lt.
        step-IsBase j s.storage (Checks.reads k junk (txn_at s.shared t).unique_id) (acc.base j lt))
      acc
Acts-Accepting {t} {s} inv (unlocks_read k ks st e unlocks) acc =
    move-Accepting t _ _ st s refl (unlocks-AllBase t s inv acc k st unlocks) acc
Acts-Accepting {t} {s} inv (runs ran e ends) acc = move-Accepting t _ _ _ s refl acc.base acc
Acts-Accepting {t} {s} inv (dies e ends) acc = move-Accepting t _ _ _ s refl acc.base acc
Acts-Accepting {t} {s} inv (locks_write held k ks st e locks) acc =
    move-Accepting t _ _ st s refl (locks-AllBase t s inv acc k st locks) acc
Acts-Accepting {t} {s} inv (checks held e) acc =
    rw (verified_at t s inv acc held e)
      (move-Accepting t _ s.shared _ s refl (mvcc_apply-AllBase _ _ s.storage acc.base) acc)
Acts-Accepting {t} {s} inv (unlocks_write true k ks st e unlocks) acc =
    move-Accepting t _ _ st s refl (unlocks-AllBase t s inv acc k st unlocks) acc
Acts-Accepting {t} {s} inv (unlocks_write false k ks st e unlocks) acc =
    absurd (ground (arith, refused_at t s inv acc _ e))
Acts-Accepting {t} {s} inv (commits e) acc = move-Accepting t _ _ _ s refl acc.base acc
Acts-Accepting {t} {s} inv (restarts e) acc = absurd (ground (arith, refused_at t s inv acc _ e))

reach-Accepting :
    {objects : ℕ → Object} {st : MvccStorage} {s : System}
    → IsFresh st
    → Reach (start_state objects st) s
    → Accepting s
reach-Accepting fresh here = record {
  base = λ k lt. rw (fresh.1 k) (ground (arith, lt));
  none_refused = λ t. refl;
}
reach-Accepting fresh (next {s} r (submits t e good)) =
    move-Accepting t _ _ _ s refl (reach-Accepting fresh r).base (reach-Accepting fresh r)
reach-Accepting fresh (next {s} r (hands t q e)) =
    move-Accepting t _ _ _ s refl (reach-Accepting fresh r).base (reach-Accepting fresh r)
reach-Accepting fresh (next r (acts t a)) =
    Acts-Accepting (reach-Inv fresh r) a (reach-Accepting fresh r)

-- In the mode MVCC, from a storage as `InitStorage` leaves it, whatever the clients, the scheduler and
-- the threads of the pool do and in whatever order, as long as the sets of the transactions are in
-- order and have keys of the storage: the checks before the writes of a transaction never fail, so no
-- transaction is emptied and asked for again.
pub mvcc-never_restarts :
    {objects : ℕ → Object} {st : MvccStorage} {s : System}
    → IsFresh st
    → Reach (start_state objects st) s
    → (t : ℕ) → is_refused (s.stage t) ≡ false
mvcc-never_restarts fresh r = (reach-Accepting fresh r).none_refused
