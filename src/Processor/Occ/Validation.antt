-- ===== src/Processor/Occ/Validation.antt =====
-- The optimistic scheduler: what its validation of an executed transaction is worth.
use database_concurrency_con.Prelude.{
  ℕ, ◌≤◌, ◌≡◌, refl, ap, ◌∙◌, Bool, true, ◌&&◌, List, [], ◌∷◌, ◌++◌, All, arith, Outcome, done, inl,
  inr,
}
use database_concurrency_con.Txn.{Txn}
use database_concurrency_con.TxnTypes.{Logic, run}
use database_concurrency_con.TxnTypes.Keeps.{Kept, run-keeps, Outcome-cases}
use database_concurrency_con.Storage.{Storage, timestamp}
use database_concurrency_con.Storage.History.{Write, write_all, After}
use database_concurrency_con.Processor.Execution.{
  read_phase, execute_txn, all_older, occ_validate_transaction,
}
use database_concurrency_con.Processor.Execution.Later.{Later, fetch_all_alone, fetch_all-reads}
use database_concurrency_con.Processor.Occ.{check_times, is_valid}

check_times-all_older :
    (start : ℕ) (ks : List ℕ) (s : Storage) (valid : Bool)
    → check_times start ks s valid ≡ (all_older start ks s && valid)
unfolding check_times all_older
check_times-all_older start [] s valid = refl
check_times-all_older start (k ∷ ks) s valid =
    ground (arith, check_times-all_older start ks s valid)

-- The two loops of the scheduler compute what `OCCValidateTransaction` computes.
pub is_valid-occ_validate_transaction :
    (t : Txn) (s : Storage) → is_valid t s ≡ occ_validate_transaction t s
unfolding is_valid occ_validate_transaction
is_valid-occ_validate_transaction t s =
    rw
      (
        check_times-all_older t.occ_start_time t.readset s true,
        check_times-all_older t.occ_start_time t.writeset s
            (all_older t.occ_start_time t.readset s && true),
      )
      (ground arith)

all_older-All :
    (start : ℕ) (ks : List ℕ) (s : Storage)
    → all_older start ks s ≡ true
    → All (λ k. timestamp k s ≤ start) ks
unfolding all_older
all_older-All start [] s h = tt
all_older-All start (k ∷ ks) s h = (ground (arith, h), all_older-All start ks s (ground (arith, h)))

done-same :
    {A B : Type 0} (a a' : A) (b b' : B)
    (e : ◌≡◌ {A = Outcome (A × B)} (done (a, b)) (done (a', b')))
    → (a ≡ a') × (b ≡ b')
done-same a a' b b' e = (ground (arith, e), ground (arith, e))

read_phase-alone :
    (others : ℕ → List Write) (start : ℕ) (s s' : Storage) (t : Txn)
    → ((n : ℕ) → After start (others n))
    → Later start (read_phase others start s t).0 s'
    → All (λ k. timestamp k s' ≤ start) (t.readset ++ t.writeset)
    → read_phase (λ _. []) start s' t ≡ (s', (read_phase others start s t).1)
unfolding read_phase
read_phase-alone others start s s' t h later old =
    let keys = t.readset ++ t.writeset in
    rw
      (
        fetch_all-reads others start 0 0 keys s s' t.reads h later old,
        fetch_all_alone 0 keys s' t.reads,
      )
      refl

read_phase-Kept :
    (others : ℕ → List Write) (start : ℕ) (s : Storage) (t : Txn)
    → Kept (record t { occ_start_time = start }) (read_phase others start s t).1
unfolding read_phase
read_phase-Kept others start s t = (refl, refl, refl)

all_older-append :
    (start : ℕ) (ks js : List ℕ) (s : Storage)
    → all_older start (ks ++ js) s ≡ (all_older start ks s && all_older start js s)
unfolding all_older
all_older-append start [] js s = refl
all_older-append start (k ∷ ks) js s = ground (arith, all_older-append start ks js s)

pub valid-old :
    (t : Txn) (s : Storage)
    → is_valid t s ≡ true
    → All (λ k. timestamp k s ≤ t.occ_start_time) (t.readset ++ t.writeset)
unfolding occ_validate_transaction
valid-old t s h = all_older-All t.occ_start_time (t.readset ++ t.writeset) s (
    ground (
      arith,
      all_older-append t.occ_start_time t.readset t.writeset s,
      rw (is_valid-occ_validate_transaction t s) at h,
    ))

-- A transaction that runs while other transactions write to the storage, strictly later than its
-- start, and that is valid when it has run and further transactions have written, is serializable
-- there: run alone on the storage at the moment of the validation it ends with the same reads,
-- the same writes and the same vote.
pub execute_txn-serializable :
    (others : ℕ → List Write) (start : ℕ) (logic : Logic) (s s' : Storage) (t ran : Txn)
    → (behind : List Write) → ((n : ℕ) → After start (others n))
    → After start behind
    → execute_txn others start logic s t ≡ done (s', ran)
    → is_valid ran (write_all behind s') ≡ true
    → execute_txn (λ _. []) start logic (write_all behind s') t ≡ done (write_all behind s', ran)
unfolding execute_txn
execute_txn-serializable others start logic s s' t ran behind h after e valid =
    elim (Outcome-cases (run logic t')) [
      | inl e' ↦ ground (arith, rw e' at e)
      | inr (ran', e') ↦
          let (same, same') = done-same _ _ _ _ (rw e' at e) in
          let (reads, writes, time) = run-keeps logic t' ran (e' ∙ ap done same') in
          let (reads', writes', time') = read_phase-Kept others start s t in
          let old =
            rw (reads ∙ reads', writes ∙ writes', time ∙ time') at
              (valid-old ran (write_all behind s') valid) in
          rw
            (
              read_phase-alone others start s (write_all behind s') t h
                  (behind, after, rw same refl) old,
              e',
              same',
            )
            refl
    ]
  where
    t' : Txn
    t' = (read_phase others start s t).1
