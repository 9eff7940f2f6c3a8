-- ===== src/Processor/Mvcc/Commits.antt =====
-- `MVCCExecuteTxn`: what becomes of a transaction that has run.
use database_concurrency_con.Prelude.{
  ℕ, ◌≡◌, ◌⊎◌, inl, inr, refl, ◌∙◌, sym, Bool, true, false, List, [], ◌∷◌, ◌++◌, some, contains,
  Distinct, if◌then◌else◌, arith,
}
use database_concurrency_con.Txn.{committed}
use database_concurrency_con.MvccStorage.{MvccStorage}
use database_concurrency_con.Atomic.Queue.{push}
use database_concurrency_con.Processor.Objects.{Shared, txn_at, new_txn_request}
use database_concurrency_con.Processor.Mvcc.{
  check_all, mvcc_apply, mvcc_commit, mvcc_restart, mvcc_decide, mvcc_validate,
}
use database_concurrency_con.Processor.Mvcc.Locks.{
  SetTo, AreAll, lock_all_alone, unlock_all_locked, check_all-versions, mvcc_apply-mutexes,
  mvcc_apply-versions,
}

-- The storage has the transaction's writes as new versions, and the client gets it as committed.
abbrev pub IsCommit : ℕ → Shared → MvccStorage → Shared → MvccStorage → Type 0
IsCommit t s st s' st' =
    (st'.versions ≡ (mvcc_apply (txn_at s t).unique_id (txn_at s t).writes st).versions)
    × ((txn_at s' t).status ≡ committed)
    × (s'.txn_results ≡ s.txn_results ++ t ∷ [])
    × (s'.txn_requests ≡ s.txn_requests)

-- The storage has no new version, and the transaction is requested again, emptied.
abbrev pub IsRestart : ℕ → Shared → MvccStorage → Shared → MvccStorage → Type 0
IsRestart t s st s' st' =
    (st'.versions ≡ st.versions)
    × ((txn_at s' t).reads ≡ [])
    × ((txn_at s' t).writes ≡ [])
    × (s'.txn_requests ≡ s.txn_requests ++ t ∷ [])
    × (s'.txn_results ≡ s.txn_results)

held : (ks : List ℕ) (st st' : MvccStorage) → SetTo true ks st st' → AreAll true ks st'
held ks st st' (_, mutexes) = go ks (λ j h. ground (arith, mutexes j))
  where
    go :
        (js : List ℕ)
        → ((j : ℕ) → contains j js ≡ true → st'.mutexes j ≡ some true)
        → AreAll true js st'
    go [] h = tt
    go (j ∷ js) h = (h j (ground arith), go js (λ i e. h i (ground arith)))

mvcc_decide-cases :
    (t : ℕ) (s : Shared) (st : MvccStorage)
    → let txn = txn_at s t in
      Distinct txn.writeset
      → AreAll true txn.writeset st
      → (verified : Bool)
      → (s' : Shared) × (st' : MvccStorage) × (mvcc_decide verified t s st ≡ some (s', st'))
        × ((j : ℕ) → st'.mutexes j ≡ (if contains j txn.writeset then some false else st.mutexes j))
        × ((verified ≡ true) × IsCommit t s st s' st'
            ⊎ (verified ≡ false) × IsRestart t s st s' st')
unfolding mvcc_decide mvcc_commit mvcc_restart new_txn_request push
mvcc_decide-cases t s st d locked true =
    let txn = txn_at s t in
    let applied = mvcc_apply txn.unique_id txn.writes st in
    let same = mvcc_apply-mutexes txn.unique_id txn.writes st in
    let (st', ran, (versions, mutexes)) =
      unlock_all_locked txn.writeset applied d (rw same locked) in
    (
      mvcc_commit t s,
      st',
      rw ran refl,
      λ j. mutexes j ∙ rw same refl,
      inl (refl, (versions, ground arith, refl, refl)),
    )
mvcc_decide-cases t s st d locked false =
    let txn = txn_at s t in
    let (st', ran, (versions, mutexes)) = unlock_all_locked txn.writeset st d locked in
    (
      mvcc_restart t s,
      st',
      rw ran refl,
      mutexes,
      inr (refl, (versions, ground arith, ground arith, refl, refl)),
    )

-- Without interference `MVCCExecuteTxn` never blocks once the transaction has run: if the mutexes
-- of the write set, which has no key twice, exist and are free, then they are free again in the end
-- and the others are as they were. The transaction commits if and only if all checks succeed,
-- whatever its logic voted; otherwise it is emptied and restarts, and the storage has no new version.
pub mvcc_validate-cases :
    (i t : ℕ) (s : Shared) (st : MvccStorage)
    → let txn = txn_at s t in
      Distinct txn.writeset
      → AreAll false txn.writeset st
      → (s' : Shared) × (st' : MvccStorage) × (mvcc_validate (λ _ st. st) i t s st ≡ some (s', st'))
        × ((j : ℕ) → st'.mutexes j ≡ (if contains j txn.writeset then some false else st.mutexes j))
        × ((check_all txn.unique_id txn.writeset st ≡ true) × IsCommit t s st s' st'
            ⊎ (check_all txn.unique_id txn.writeset st ≡ false) × IsRestart t s st s' st')
unfolding mvcc_validate
mvcc_validate-cases i t s st d free =
    let txn = txn_at s t in
    let (st₁, locked, (versions, mutexes)) = lock_all_alone i txn.writeset st d free in
    let verdict = check_all-versions txn.unique_id txn.writeset st st₁ versions in
    let (s', st', ran, mutexes', outcome) =
      mvcc_decide-cases t s st₁ d (held txn.writeset st st₁ (versions, mutexes))
        (check_all txn.unique_id txn.writeset st₁) in
    (
      s',
      st',
      rw (locked, mvcc_validate) ran,
      λ j. ground (arith, mutexes j, mutexes' j),
      elim outcome [
        | inl (ok, (new, status, results, requests)) ↦ inl (
          sym verdict ∙ ok,
          (
            new ∙ mvcc_apply-versions txn.unique_id txn.writes st st₁ versions,
            status,
            results,
            requests,
          ),
        )
        | inr (refused, (none_new, reads, writes, requests, results)) ↦
            inr (sym verdict ∙ refused, (none_new ∙ versions, reads, writes, requests, results))
      ],
    )
