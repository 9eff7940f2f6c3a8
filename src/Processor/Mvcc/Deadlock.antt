-- ===== src/Processor/Mvcc/Deadlock.antt =====
-- The multiversion scheduler: a thread waits for a lock only, and there is always one that need not.
use database_concurrency_con.Prelude.{
  ℕ, zero, suc, ◌+◌, ◌<◌, ◌≤◌, ◌≡◌, ◌⊎◌, refl, true, false, [], ◌∷◌, some, update, arith, inl, inr,
  ==_self, Bool-cases,
}
use database_concurrency_con.TxnTypes.{Object, run}
use database_concurrency_con.TxnTypes.Keeps.{Outcome-cases}
use database_concurrency_con.MvccStorage.{MvccStorage, record_count, lock, unlock}
use database_concurrency_con.Processor.Objects.{txn_at}
use database_concurrency_con.Processor.Mvcc.System.{
  Stage, outside, requested, queued, dead, fetching, reading, leaving, locking, releasing, System,
  start_state, Acts, locks_read, reads, unlocks_read, runs, dies, locks_write, checks,
  unlocks_write, commits, restarts, Reach,
}
use database_concurrency_con.Processor.Mvcc.Stages.{holds}
use database_concurrency_con.Processor.Mvcc.Invariant.{Inv}
use database_concurrency_con.Processor.Mvcc.Progress.{
  IsFresh, is_running, wants, reach-Inv, wants_key, wants_above,
}

lock_free :
    (k : ℕ) (st : MvccStorage)
    → st.mutexes k ≡ some false
    → (st' : MvccStorage) × (lock k st ≡ some st')
unfolding lock
lock_free k st e = (record st { mutexes = update st.mutexes k (some true) }, ground (arith, e))

unlock_held :
    (k : ℕ) (st : MvccStorage)
    → st.mutexes k ≡ some true
    → (st' : MvccStorage) × (unlock k st ≡ some st')
unfolding unlock
unlock_held k st e = (record st { mutexes = update st.mutexes k (some false) }, ground (arith, e))

-- `t` can make a step, or waits for the lock of a key that is held.
abbrev Goes : ℕ → System → Type 0
Goes t s =
    ((s' : System) × Acts t s s')
    ⊎ ((k : ℕ) × (wants (s.stage t) k ≡ true) × (s.storage.mutexes k ≡ some true))

module _ (t : ℕ) (s : System) (inv : Inv s) where
  -- A thread before the lock of `k`, which can make a step if the lock is free.
  waits :
      (k : ℕ)
      → k < record_count
      → wants (s.stage t) k ≡ true
      → ((st : MvccStorage) → lock k s.storage ≡ some st → (s' : System) × Acts t s s')
      → Goes t s
  waits k lt w go =
      let (b, e) = inv.owned.exists k lt in
      elim (Bool-cases b) [
        | inl held ↦ inr (k, w, rw held at e)
        | inr free ↦ let (st, locks) = lock_free k s.storage (rw free at e) in inl (go st locks)
      ]

  -- A thread always can make a step, but where it waits.
  stage_acts : (p : Stage) → s.stage t ≡ p → is_running p ≡ true → Goes t s
  stage_acts outside e r = ground (arith, r)
  stage_acts requested e r = ground (arith, r)
  stage_acts dead e r = ground (arith, r)
  stage_acts queued e r = ground (arith, r)
  stage_acts (fetching []) e r =
      elim (Outcome-cases (run (s.objects t).logic (txn_at s.shared t))) [
        | inl ends ↦ inl (_, dies e ends)
        | inr (ran, ends) ↦ inl (_, runs ran e ends)
      ]
  stage_acts (fetching (k ∷ ks)) e r =
      let well = rw e at (inv.well t) in
      waits k well.1.0 (rw e (==_self k)) (λ st locks. (_, locks_read k ks st e locks))
  stage_acts (reading k ks) e r = inl (_, reads k ks 0 e)
  stage_acts (leaving k ks) e r =
      let (st, unlocks) = unlock_held k s.storage (inv.owned.locked t k (rw e (==_self k))) in
      inl (_, unlocks_read k ks st e unlocks)
  stage_acts (locking held []) e r = inl (_, checks held e)
  stage_acts (locking held (k ∷ ks)) e r =
      let w : wants (s.stage t) k ≡ true = rw e (==_self k) in
      waits k (wants_key (s.stage t) _ k (inv.well t) w) w
        (λ st locks. (_, locks_write held k ks st e locks))
  stage_acts (releasing true []) e r = inl (_, commits e)
  stage_acts (releasing false []) e r = inl (_, restarts e)
  stage_acts (releasing verified (k ∷ ks)) e r =
      let (st, unlocks) =
        unlock_held k s.storage (inv.owned.locked t k (rw e (ground (arith, ==_self k)))) in
      inl (_, unlocks_write verified k ks st e unlocks)

-- Some thread that executes a transaction can make a step.
abbrev pub Moves : System → Type 0
Moves s = (j : ℕ) × (is_running (s.stage j) ≡ true) × (s' : System) × Acts j s s'

holder_running : (p : Stage) (k : ℕ) → holds p k ≡ true → is_running p ≡ true
holder_running outside k h = h
holder_running requested k h = h
holder_running queued k h = h
holder_running dead k h = h
holder_running (fetching ks) k h = refl
holder_running (reading i ks) k h = refl
holder_running (leaving i ks) k h = refl
holder_running (locking held todo) k h = refl
holder_running (releasing verified ks) k h = refl

-- The thread that holds the lock of `k` can make a step, or waits for a greater key.
chain :
    (fuel k : ℕ) (s : System)
    → Inv s
    → record_count ≤ k + fuel
    → k < record_count
    → s.storage.mutexes k ≡ some true
    → Moves s
chain zero k s inv enough lt held = absurd (ground (arith))
chain (suc fuel) k s inv enough lt held =
    let (j, mine) = inv.owned.owner k held in
    let running = holder_running (s.stage j) k mine in
    elim (stage_acts j s inv (s.stage j) refl running) [
      | inl (s', a) ↦ (j, running, s', a)
      | inr (k', w, held') ↦
          let above = wants_above (s.stage j) (txn_at s.shared j) k k' (inv.well j) mine w in
          let lt' = wants_key (s.stage j) (txn_at s.shared j) k' (inv.well j) w in
          chain fuel k' s inv (ground (arith)) lt' held'
    ]

-- In the mode MVCC, from a storage as `InitStorage` leaves it, whatever the clients, the scheduler and
-- the threads of the pool do and in whatever order, as long as the sets of the transactions are in
-- order and have keys of the storage: whenever a thread executes a transaction, that or another thread
-- that executes one can make a step. So there is no deadlock.
pub mvcc-no_deadlock :
    {objects : ℕ → Object} {st : MvccStorage} {s : System}
    → IsFresh st
    → Reach (start_state objects st) s
    → (t : ℕ) → is_running (s.stage t) ≡ true
    → Moves s
mvcc-no_deadlock {s = s} fresh r t running =
    let inv = reach-Inv fresh r in
    elim (stage_acts t s inv (s.stage t) refl running) [
      | inl (s', a) ↦ (t, running, s', a)
      | inr (k, w, held) ↦
          chain record_count k s inv (ground (arith))
            (wants_key (s.stage t) (txn_at s.shared t) k (inv.well t) w) held
    ]
