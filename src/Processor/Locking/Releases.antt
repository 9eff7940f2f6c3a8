-- ===== src/Processor/Locking/Releases.antt =====
-- txn/txn_processor.cc: the loops of `RunLockingScheduler` that release the locks of a transaction.
use database_concurrency_con.Prelude.{
  ap, ◌⊎◌, keys, ==_self, done, ℕ, ◌≡◌, refl, ◌∙◌, sym, true, false, List, [], ◌∷◌, ◌++◌, some,
  arith, All, contains, Distinct, Option-cases, inl, inr, if◌then◌else◌, ◌==◌,
}
use database_concurrency_con.LockManager.Granted.{erase_first}
use database_concurrency_con.LockManager.Requests.{txns_of}
use database_concurrency_con.LockManager.Interface.{LockManager, LockLaws}
use database_concurrency_con.Atomic.Queue.{push}
use database_concurrency_con.Txn.{TxnStatus, completed_c, completed_a, committed, aborted}
use database_concurrency_con.Storage.{Storage}
use database_concurrency_con.TxnTypes.Keeps.{IsVote}
use database_concurrency_con.Processor.Execution.{apply_writes}
use database_concurrency_con.Processor.Execution.Decisions.{IsCommit, IsAbort, apply_writes-Applied}
use database_concurrency_con.Processor.Objects.{Shared, txn_at, set_status}
use database_concurrency_con.Processor.Locking.{◌>>=◌, release_all, give_result, settle, finish_txn}

module _ {S : Type 0} (m : LockManager S) (IsValid : S → Type 0) (laws : LockLaws m IsValid)
    (t : ℕ) where
  -- The transaction has a request for each of the keys.
  abbrev HasAll : List ℕ → S → Type 0
  HasAll ks s = All (λ k. contains t (txns_of (m.queue s k)) ≡ true) ks

  -- The first request of the transaction for each of the keys is gone, and nothing else.
  abbrev pub Freed : List ℕ → S → S → Type 0
  Freed ks s s' =
      (j : ℕ) → m.queue s' j ≡ (if contains j ks then erase_first t (m.queue s j) else m.queue s j)

  HasAll-release :
      (k : ℕ) (ks : List ℕ) (s s' : S)
      → contains k ks ≡ false
      → HasAll ks s
      → ((j : ℕ) → m.queue s' j ≡ (if k == j then erase_first t (m.queue s k) else m.queue s j))
      → HasAll ks s'
  HasAll-release k [] s s' new has queues = tt
  HasAll-release k (j ∷ ks) s s' new has queues =
      (ground (arith, queues j, has.0), HasAll-release k ks s s' (ground (arith, new)) has.1 queues)

  pub release_all-Freed :
      (ks : List ℕ) (s : S)
      → Distinct ks
      → IsValid s
      → HasAll ks s
      → (s' : S) × (release_all m t ks s ≡ some s') × IsValid s' × Freed ks s s'
  unfolding release_all
  release_all-Freed [] s d v has = (s, refl, v, λ j. refl)
  release_all-Freed (k ∷ ks) s d v has =
      let (s₁, released, v₁, queues) = laws.release_lem t k s v has.0 in
      let (s', rest, v', freed) =
        release_all-Freed ks s₁ d.1 v₁ (HasAll-release k ks s s₁ d.0 has.1 queues) in
      (s', rw released rest, v', λ j. freed j ∙ ground (arith, queues j, d.0))

  release_all-append :
      (ks js : List ℕ) (s : S)
      → release_all m t (ks ++ js) s ≡ release_all m t ks s >>= release_all m t js
  unfolding release_all
  release_all-append [] js s = refl
  release_all-append (k ∷ ks) js s = elim (Option-cases (m.release t k s)) [
    | inl e ↦ rw e refl
    | inr (s', e) ↦ rw e (release_all-append ks js s')
  ]

  HasAll-append : (ks js : List ℕ) (s : S) → HasAll ks s → HasAll js s → HasAll (ks ++ js) s
  HasAll-append [] js s has has' = has'
  HasAll-append (k ∷ ks) js s has has' = (has.0, HasAll-append ks js s has.1 has')

  give_result-done :
      (p : Shared) (s s' : S)
      → let txn = txn_at p t in
        release_all m t (txn.readset ++ txn.writeset) s ≡ some s'
        → give_result m t p s ≡ some (record p { txn_results = p.txn_results ++ t ∷ [] }, s')
  unfolding give_result push
  give_result-done p s s' e =
      let txn = txn_at p t in
      let e' = sym (release_all-append txn.readset txn.writeset s) ∙ e in
      elim (Option-cases (release_all m t txn.readset s)) [
        | inl none_left ↦ ground (arith, rw none_left at e')
        | inr (s₁, first) ↦ rw (first, rw first at e') refl
      ]

  -- A state in which only the status of the transaction is settled.
  abbrev Settled : TxnStatus → Shared → Shared → Type 0
  Settled x p p₁ =
      (txn_at p₁ t ≡ record (txn_at p t) { status = x })
      × (p₁.txn_results ≡ p.txn_results)
      × (p₁.txn_requests ≡ p.txn_requests)

  give_after :
      (x : TxnStatus) (p p₁ : Shared) (s : S)
      → let txn = txn_at p t in
        Settled x p p₁
        → Distinct (txn.readset ++ txn.writeset)
        → IsValid s
        → HasAll (txn.readset ++ txn.writeset) s
        → (p' : Shared) × (s' : S) × (give_result m t p₁ s ≡ some (p', s'))
          × IsValid s'
          × Freed (txn.readset ++ txn.writeset) s s'
          × ((txn_at p' t).status ≡ x)
          × (p'.txn_results ≡ p.txn_results ++ t ∷ [])
          × (p'.txn_requests ≡ p.txn_requests)
  give_after x p p₁ s (same, results, requests) d v has =
      let txn = txn_at p t in
      let (s', all, v', freed) = release_all-Freed (txn.readset ++ txn.writeset) s d v has in
      (
        record p₁ { txn_results = p₁.txn_results ++ t ∷ [] },
        s',
        give_result-done p₁ s s' (rw same all),
        v',
        freed,
        rw same refl,
        rw results refl,
        requests,
      )

  finish_after :
      (times : ℕ → ℕ) (p p₁ : Shared) (st st' : Storage) (s : S) (r : Shared × S)
      → settle m times (txn_at p t).status t p st ≡ done (p₁, st')
      → give_result m t p₁ s ≡ some r
      → finish_txn m times t p st s ≡ done (some (r, st'))
  unfolding finish_txn
  finish_after times p p₁ st st' s r settled given = rw (settled, finish_txn, given) refl

  -- With any lock manager whose methods change the deques as LockLaws says, in a valid state, a
  -- transaction that has finished and has a request for each of its keys never ends the process and never makes the
  -- scheduler read a null pointer. If it voted to commit, its writes are in the storage and it
  -- is committed; if it voted to abort, the storage is unchanged and it is aborted. In either
  -- case it gives all its requests back, no other request is lost, and the client gets it. Its
  -- keys, and those of its pending writes, are distinct.
  pub finish_txn-cases :
      (times : ℕ → ℕ) (p : Shared) (st : Storage) (s : S)
      → let txn = txn_at p t in
        IsVote txn.status
        → Distinct (keys txn.writes)
        → Distinct (txn.readset ++ txn.writeset)
        → IsValid s
        → HasAll (txn.readset ++ txn.writeset) s
        → (p' : Shared) × (s' : S) × (st' : Storage) × (finish_txn m times t p st s
            ≡ done (some ((p', s'), st')))
          × IsValid s'
          × Freed (txn.readset ++ txn.writeset) s s'
          × ((txn.status ≡ completed_c) × IsCommit t p st p' st'
              ⊎ (txn.status ≡ completed_a) × IsAbort t p st p' st')
  unfolding settle
  finish_txn-cases times p st s (inl vote) distinct d v has =
      let applied = apply_writes times (txn_at p t).writes p.ticks st in
      let p₁ = record (set_status t committed p) { ticks = applied.1 } in
      let (p', s', given, v', freed, status, results, requests) =
        give_after committed p p₁ s (ground (arith, ==_self t), refl, refl) d v has in
      (
        p',
        s',
        applied.0,
        finish_after times p p₁ st applied.0 s (p', s')
            (ap (λ (x : TxnStatus). settle m times x t p st) vote) given,
        v',
        freed,
        inl (
          vote,
          (
            status,
            apply_writes-Applied times (txn_at p t).writes p.ticks st distinct,
            results,
            requests,
          ),
        ),
      )
  finish_txn-cases times p st s (inr vote) distinct d v has =
      let p₁ = set_status t aborted p in
      let (p', s', given, v', freed, status, results, requests) =
        give_after aborted p p₁ s (ground (arith, ==_self t), refl, refl) d v has in
      (
        p',
        s',
        st,
        finish_after times p p₁ st st s (p', s')
            (ap (λ (x : TxnStatus). settle m times x t p st) vote) given,
        v',
        freed,
        inr (vote, (status, refl, results, requests)),
      )
