-- ===== src/Processor/Mvcc/Invariant.antt =====
-- The multiversion scheduler: what holds in every state, and that each kind of step keeps it.
use database_concurrency_con.Prelude.{
  ℕ, ◌≡◌, ◌≢◌, refl, ◌∙◌, sym, Bool, true, false, List, [], ◌∷◌, ◌++◌, append_assoc, append-nil,
  some, update, arith, contains-append, Bool-cases, inl, inr, ◌==◌, ==→≡, ==_self, if◌then◌else◌,
  done,
}
use database_concurrency_con.Txn.{Txn}
use database_concurrency_con.TxnTypes.{run}
use database_concurrency_con.TxnTypes.Keeps.{run-keeps}
use database_concurrency_con.MvccStorage.{MvccStorage, lock, unlock, read}
use database_concurrency_con.MvccStorage.Visibility.{read-oldest_visible}
use database_concurrency_con.Atomic.Queue.{push}
use database_concurrency_con.Processor.Objects.{Shared, txn_at, set_txn, new_txn_request}
use database_concurrency_con.Processor.Workers.{keys_of}
use database_concurrency_con.Places.{Holds, Holds-move, Holds-push}
use database_concurrency_con.Processor.Mvcc.{mvcc_apply, mvcc_commit, mvcc_restart}
use database_concurrency_con.Processor.Mvcc.Locks.{mvcc_apply-mutexes}
use database_concurrency_con.Processor.Mvcc.Mutexes.{IsOwned}
use database_concurrency_con.Processor.Mvcc.System.{
  Stage, outside, requested, queued, dead, fetching, reading, leaving, locking, releasing, System,
  move, noted, IsGood,
}
use database_concurrency_con.Processor.Mvcc.Stages.{
  holds, holds_at, IsWell, sorted_absent, lock_inv, unlock_inv, keep-IsOwned, take-IsOwned,
  give-IsOwned,
}

-- What holds in every state that can be reached.
pub record Inv (s : System) : Type 0 where
  pub owned : IsOwned s.storage.mutexes (holds_at s.stage)
  pub well : (t : ℕ) → IsWell (s.stage t) (txn_at s.shared t)
  pub asked : Holds requested s.txn_requests s.stage

-- A step of `t` to the stage `p`, which changes no other transaction, and asks for none again.
move-Inv :
    (t : ℕ) (p : Stage) (shared : Shared) (st : MvccStorage) (s : System)
    → s.stage t ≢ requested
    → shared.txn_requests ≡ s.txn_requests
    → ((j : ℕ) → (t == j) ≡ false → shared.objects j ≡ s.objects j)
    → IsOwned st.mutexes (holds_at (update s.stage t p))
    → IsWell p (txn_at shared t)
    → Inv s
    → Inv (move t p shared st s)
move-Inv t p shared st s away same others owned well inv = record {
  owned = owned;
  well = λ j. elim (Bool-cases (t == j)) [
    | inl e ↦ rw (e, sym (==→≡ t j e)) well
    | inr e ↦ rw (e, txn_at, others j e) (inv.well j)
  ];
  asked = rw same (Holds-move requested s.txn_requests s.stage t p away inv.asked);
}

module _ (t : ℕ) (s : System) (inv : Inv s) where
  known : (p : Stage) → s.stage t ≡ p → IsWell p (txn_at s.shared t)
  known p e = rw e at (inv.well t)

  not_requested : (p : Stage) → s.stage t ≡ p → p ≢ requested → s.stage t ≢ requested
  not_requested p e n = rw e n

  pub locks_read-Inv :
      (k : ℕ) (ks : List ℕ) (st : MvccStorage)
      → s.stage t ≡ fetching (k ∷ ks)
      → lock k s.storage ≡ some st
      → Inv (move t (reading k ks) s.shared st s)
  locks_read-Inv k ks st e locks =
      let (free, after) = lock_inv k s.storage st locks in
      let o =
        take-IsOwned s.storage.mutexes s.stage t (reading k ks) k (λ j. rw e refl) free inv.owned in
      move-Inv t (reading k ks) s.shared st s (not_requested _ e (λ e'. ground (arith, e'))) refl
        (λ j n. refl) (rw after o) (known _ e) inv

  pub unlocks_read-Inv :
      (k : ℕ) (ks : List ℕ) (st : MvccStorage)
      → s.stage t ≡ leaving k ks
      → unlock k s.storage ≡ some st
      → Inv (move t (fetching ks) s.shared st s)
  unlocks_read-Inv k ks st e unlocks =
      let (held, after) = unlock_inv k s.storage st unlocks in
      let o =
        give-IsOwned s.storage.mutexes s.stage t (fetching ks) k (λ j. rw e (ground arith))
          (rw e (==_self k)) inv.owned in
      let (good, every) = known _ e in
      move-Inv t (fetching ks) s.shared st s (not_requested _ e (λ e'. ground (arith, e'))) refl
        (λ j n. refl) (rw after o) (good, every.1) inv

  pub reads-Inv :
      (k : ℕ) (ks : List ℕ) (junk : ℕ)
      → s.stage t ≡ reading k ks
      → (let r = read k junk (txn_at s.shared t).unique_id s.storage in
          Inv (move t (leaving k ks) (noted t k r.0 s.shared) r.1 s))
  reads-Inv k ks junk e =
      let r = read k junk (txn_at s.shared t).unique_id s.storage in
      let mutexes = (read-oldest_visible k junk (txn_at s.shared t).unique_id s.storage).2 in
      let o = keep-IsOwned s.storage.mutexes s.stage t (leaving k ks) (λ j. rw e refl) inv.owned in
      move-Inv t (leaving k ks) (noted t k r.0 s.shared) r.1 s
        (not_requested _ e (λ e'. ground (arith, e'))) refl (λ j n. rw n refl) (rw mutexes o)
        (rw (txn_at, ==_self t) (known _ e)) inv

  pub runs-Inv :
      (ran : Txn)
      → s.stage t ≡ fetching []
      → run (s.objects t).logic (txn_at s.shared t) ≡ done ran
      → Inv (
          move t
            (locking [] ran.writeset)
            (record (set_txn t ran s.shared) { completed_txns = push t s.completed_txns })
            s.storage
            s)
  runs-Inv ran e ends =
      let (read_same, write_same, _) = run-keeps (s.objects t).logic _ ran ends in
      let o =
        keep-IsOwned s.storage.mutexes s.stage t (locking [] ran.writeset) (λ j. rw e refl)
          inv.owned in
      let (good, every) = known _ e in
      move-Inv t _ _ s.storage s (not_requested _ e (λ e'. ground (arith, e'))) refl
        (λ j n. rw n refl) o (rw (txn_at, ==_self t) (rw (read_same, write_same) good, refl)) inv

  pub locks_write-Inv :
      (held : List ℕ) (k : ℕ) (ks : List ℕ) (st : MvccStorage)
      → s.stage t ≡ locking held (k ∷ ks)
      → lock k s.storage ≡ some st
      → Inv (move t (locking (held ++ k ∷ []) ks) s.shared st s)
  locks_write-Inv held k ks st e locks =
      let (free, after) = lock_inv k s.storage st locks in
      let p = locking (held ++ k ∷ []) ks in
      let o =
        take-IsOwned s.storage.mutexes s.stage t p k
          (λ j. rw e (ground (arith, contains-append j held (k ∷ [])))) free inv.owned in
      let (good, all) = known _ e in
      move-Inv t p s.shared st s (not_requested _ e (λ e'. ground (arith, e'))) refl (λ j n. refl)
        (rw after o) (good, append_assoc held (k ∷ []) ks ∙ all) inv

  pub checks-Inv :
      (held : List ℕ) (verified : Bool)
      → s.stage t ≡ locking held []
      → (let txn = txn_at s.shared t in
          Inv (
            move t
              (releasing verified txn.writeset)
              s.shared
              (if verified then mvcc_apply txn.unique_id txn.writes s.storage else s.storage)
              s))
  checks-Inv held verified e =
      let txn = txn_at s.shared t in
      let p = releasing verified txn.writeset in
      let (good, all) = known _ e in
      let o =
        keep-IsOwned s.storage.mutexes s.stage t p
          (λ j. rw (e, sym all) (rw (append-nil held) refl)) inv.owned in
      let same : (if verified
            then mvcc_apply txn.unique_id txn.writes s.storage
            else s.storage).mutexes
          ≡ s.storage.mutexes =
        ground (arith, mvcc_apply-mutexes txn.unique_id txn.writes s.storage) in
      move-Inv t p s.shared _ s (not_requested _ e (λ e'. ground (arith, e'))) refl (λ j n. refl)
        (rw same o) (good, good.0) inv

  pub unlocks_write-Inv :
      (verified : Bool) (k : ℕ) (ks : List ℕ) (st : MvccStorage)
      → s.stage t ≡ releasing verified (k ∷ ks)
      → unlock k s.storage ≡ some st
      → Inv (move t (releasing verified ks) s.shared st s)
  unlocks_write-Inv verified k ks st e unlocks =
      let (held, after) = unlock_inv k s.storage st unlocks in
      let (good, sorted) = known _ e in
      let out = sorted_absent k ks sorted.0 in
      let o =
        give-IsOwned s.storage.mutexes s.stage t (releasing verified ks) k
          (λ j. rw e (ground (arith, out, ==→≡ j k))) (rw e (ground (arith, ==_self k)))
          inv.owned in
      move-Inv t (releasing verified ks) s.shared st s
        (not_requested _ e (λ e'. ground (arith, e'))) refl (λ j n. refl) (rw after o)
        (good, sorted.1) inv

  pub begins-Inv :
      s.stage t ≡ queued
      → Inv (move t (fetching (keys_of (txn_at s.shared t))) s.shared s.storage s)
  begins-Inv e =
      let p = fetching (keys_of (txn_at s.shared t)) in
      let o = keep-IsOwned s.storage.mutexes s.stage t p (λ j. rw e refl) inv.owned in
      let good = known _ e in
      move-Inv t p s.shared s.storage s (not_requested _ e (λ e'. ground (arith, e'))) refl
        (λ j n. refl) o (good, good.1) inv

  pub dies-Inv : s.stage t ≡ fetching [] → Inv (move t dead s.shared s.storage s)
  dies-Inv e =
      let o = keep-IsOwned s.storage.mutexes s.stage t dead (λ j. rw e refl) inv.owned in
      move-Inv t dead s.shared s.storage s (not_requested _ e (λ e'. ground (arith, e'))) refl
        (λ j n. refl) o tt inv

  pub commits-Inv :
      s.stage t ≡ releasing true [] → Inv (move t outside (mvcc_commit t s.shared) s.storage s)
  unfolding mvcc_commit
  commits-Inv e =
      let o = keep-IsOwned s.storage.mutexes s.stage t outside (λ j. rw e refl) inv.owned in
      move-Inv t outside (mvcc_commit t s.shared) s.storage s
        (not_requested _ e (λ e'. ground (arith, e'))) refl (λ j n. rw n refl) o tt inv

  -- A transaction that holds nothing is asked for.
  asks-Inv :
      (shared : Shared)
      → s.stage t ≢ requested
      → ((j : ℕ) → holds (s.stage t) j ≡ false)
      → shared.txn_requests ≡ s.txn_requests ++ t ∷ []
      → ((j : ℕ) → (t == j) ≡ false → shared.objects j ≡ s.objects j)
      → IsGood (txn_at shared t)
      → Inv (move t requested shared s.storage s)
  asks-Inv shared away idle more others good = record {
    owned = keep-IsOwned s.storage.mutexes s.stage t requested (λ j. sym (idle j)) inv.owned;
    well = λ j. elim (Bool-cases (t == j)) [
      | inl e ↦ rw (e, sym (==→≡ t j e)) good
      | inr e ↦ rw (e, txn_at, others j e) (inv.well j)
    ];
    asked = rw more (Holds-push requested s.txn_requests s.stage t away inv.asked);
  }

  pub restarts-Inv :
      s.stage t ≡ releasing false [] → Inv (move t requested (mvcc_restart t s.shared) s.storage s)
  unfolding mvcc_restart new_txn_request push
  restarts-Inv e =
      asks-Inv (mvcc_restart t s.shared) (not_requested _ e (λ e'. ground (arith, e')))
        (λ j. rw e refl) refl (λ j n. rw n refl) (rw (txn_at, ==_self t) (known _ e).0)

  pub submits-Inv :
      s.stage t ≡ outside
      → IsGood (txn_at s.shared t)
      → Inv (move t requested (new_txn_request t s.shared) s.storage s)
  unfolding new_txn_request push
  submits-Inv e good =
      asks-Inv (new_txn_request t s.shared) (not_requested _ e (λ e'. ground (arith, e')))
        (λ j. rw e refl) refl (λ j n. rw n refl) (rw (txn_at, ==_self t) good)
