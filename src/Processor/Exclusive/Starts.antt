-- ===== src/Processor/Exclusive/Starts.antt =====
-- What the start of a transaction does to the tables of LockManagerA: it has all its locks, or it has
-- none of them, or it waits for its only one.
use database_concurrency_con.Prelude.{
  ℕ, ◌≡◌, ◌⊎◌, refl, ◌∙◌, Bool, true, false, List, [], ◌∷◌, ◌++◌, Option, some, arith, contains,
  Distinct, Distinct-append_left, Bool-cases, List-cases, inl, inr,
}
use database_concurrency_con.Txn.{Txn}
use database_concurrency_con.LockManager.Requests.{
  exclusive, LockRequest, request, txns_of, Tables, queue,
}
use database_concurrency_con.LockManager.ManagerA.{write_lock}
use database_concurrency_con.LockManager.ManagerA.Locks.{set_queue, add_wait, write_lock_lem}
use database_concurrency_con.LockManager.Implementations.{manager_a}
use database_concurrency_con.Processor.Locking.{acquire, acquire_all, acquire_writes, is_several}
use database_concurrency_con.Processor.Workers.{keys_of}
use database_concurrency_con.Processor.Exclusive.Deques.{write_lock_empty, write_lock_full}
use database_concurrency_con.Processor.Exclusive.Acquires.{
  Taken, Refused, TakesAll, acquire-TakesAll,
}

module _ (t : ℕ) where
  -- The transaction waits for its only lock.
  abbrev pub Waits : ℕ → Tables → Tables → Type 0
  Waits k s s' =
      (r : LockRequest) × (q : List LockRequest) × (queue s k ≡ r ∷ q)
      × (s' ≡ add_wait t (set_queue k (r ∷ q ++ request exclusive t ∷ []) s))

  -- How the two loops end.
  abbrev pub Starts : Txn → Tables → Option (Bool × Tables) → Type 0
  Starts txn s r =
      (s' : Tables) × ((r ≡ some (false, s')) × Taken t (keys_of txn) s s'
        ⊎ (r ≡ some (true, s')) × (is_several manager_a txn ≡ true) × Refused t s s'
        ⊎ (r ≡ some (true, s'))
          × (is_several manager_a txn ≡ false)
          × ((k : ℕ) × (keys_of txn ≡ k ∷ []) × Waits k s s'))

  abbrev Single : ℕ → Tables → Option (Bool × Tables) → Type 0
  Single k s r =
      (s' : Tables) × ((r ≡ some (false, s')) × Taken t (k ∷ []) s s'
        ⊎ (r ≡ some (true, s')) × Waits k s s')

  acquire-Single :
      (lock : ℕ → ℕ → Tables → Bool × Tables) (before : List ℕ) (k : ℕ) (s : Tables)
      → lock t k s ≡ write_lock t k s
      → Single k s (acquire manager_a lock false t before (k ∷ []) false s)
  unfolding acquire
  acquire-Single lock before k s same = elim (List-cases (queue s k)) [
    | inl e ↦
        let s' = set_queue k (request exclusive t ∷ []) s in
        rw (same ∙ write_lock_empty t k s e)
          (s', inl (refl, ((e, tt), (refl, refl), λ j. ground arith)))
    | inr (r, q, e) ↦ rw (same ∙ write_lock_full t k s r q e) (_, inr (refl, (r, q, e, refl)))
  ]

  read_same : (k : ℕ) (s : Tables) → manager_a.read_lock t k s ≡ write_lock t k s
  read_same k s = (write_lock_lem t k s).1

  acquire_all-several :
      (txn : Txn) (s : Tables)
      → is_several manager_a txn ≡ true
      → Distinct (keys_of txn)
      → ((j : ℕ) → contains t (txns_of (queue s j)) ≡ false)
      → TakesAll t (keys_of txn) s (acquire_all manager_a t txn s)
  unfolding acquire_all acquire_writes
  acquire_all-several txn s several d idle =
      let (s₁, first) =
        acquire-TakesAll t manager_a.read_lock read_same [] txn.readset s s
          (Distinct-append_left txn.readset txn.writeset d) idle (tt, (refl, refl), λ j. refl) in
      elim first [
        | inl (e, taken) ↦
            rw (several, e)
              (acquire-TakesAll t manager_a.write_lock (λ k s. refl) txn.readset txn.writeset s s₁ d
                idle taken)
        | inr (e, refused) ↦ rw (several, e) (s₁, inr (refl, refused))
      ]

  no_writes_left :
      (txn : Txn) (r : Bool × Tables)
      → txn.writeset ≡ []
      → acquire_writes manager_a false t txn r ≡ some r
  unfolding acquire_writes acquire
  no_writes_left txn (true, s) e = refl
  no_writes_left txn (false, s) e = rw e refl

  read_only :
      (txn : Txn) (k : ℕ) (s : Tables) (r : Bool × Tables)
      → txn.readset ≡ k ∷ []
      → txn.writeset ≡ []
      → acquire manager_a manager_a.read_lock false t [] (k ∷ []) false s ≡ some r
      → acquire_all manager_a t txn s ≡ some r
  unfolding acquire_all
  read_only txn k s r reads writes e =
      rw (reads, writes, e) (no_writes_left (record txn { readset = k ∷ []; writeset = [] }) r refl)

  write_only :
      (txn : Txn) (k : ℕ) (s : Tables)
      → txn.readset ≡ []
      → txn.writeset ≡ k ∷ []
      → acquire_all manager_a t txn s
        ≡ acquire manager_a manager_a.write_lock false t [] (k ∷ []) false s
  unfolding acquire_all acquire_writes acquire
  write_only txn k s reads writes = rw (reads, writes) refl

  Single-Starts :
      (txn : Txn) (k : ℕ) (s : Tables) (ran : Option (Bool × Tables))
      → is_several manager_a txn ≡ false
      → keys_of txn ≡ k ∷ []
      → Single k s ran
      → ((r : Bool × Tables) → ran ≡ some r → acquire_all manager_a t txn s ≡ some r)
      → Starts txn s (acquire_all manager_a t txn s)
  Single-Starts txn k s ran few one (s', ends) same = elim ends [
    | inl (e, taken) ↦ (s', inl (same (false, s') e, rw one taken))
    | inr (e, waits) ↦ (s', inr (inr (same (true, s') e, few, (k, one, waits))))
  ]

  acquire_all-few :
      (txn : Txn) (s : Tables)
      → is_several manager_a txn ≡ false
      → Starts txn s (acquire_all manager_a t txn s)
  unfolding acquire_all acquire_writes acquire
  acquire_all-few txn s few = elim (List-cases txn.readset) [
    | inl no_reads ↦ elim (List-cases txn.writeset) [
      | inl no_writes ↦ rw (no_reads, no_writes) (s, inl (refl, (tt, (refl, refl), λ j. refl)))
      | inr (k, ks, writes) ↦
          let writes' : txn.writeset ≡ k ∷ [] = elim (List-cases ks) [
            | inl e ↦ rw e at writes
            | inr (i, is, e) ↦ absurd (ground (arith, rw (no_reads, writes, e) at few))
          ] in
          Single-Starts txn k s _ few (rw (no_reads, writes') refl)
            (acquire-Single manager_a.write_lock [] k s refl)
            (λ r e. write_only txn k s no_reads writes' ∙ e)
    ]
    | inr (k, ks, reads) ↦
        let reads' : txn.readset ≡ k ∷ [] = elim (List-cases ks) [
          | inl e ↦ rw e at reads
          | inr (i, is, e) ↦ absurd (ground (arith, rw (reads, e) at few))
        ] in
        let writes : txn.writeset ≡ [] = elim (List-cases txn.writeset) [
          | inl e ↦ e
          | inr (i, is, e) ↦ absurd (ground (arith, rw (reads', e) at few))
        ] in
        Single-Starts txn k s _ few (rw (reads', writes) refl)
          (acquire-Single manager_a.read_lock [] k s (read_same k s))
          (λ r e. read_only txn k s r reads' writes e)
  ]

  pub acquire_all-Starts :
      (txn : Txn) (s : Tables)
      → Distinct (keys_of txn)
      → ((j : ℕ) → contains t (txns_of (queue s j)) ≡ false)
      → Starts txn s (acquire_all manager_a t txn s)
  acquire_all-Starts txn s d idle = elim (Bool-cases (is_several manager_a txn)) [
    | inl several ↦
        let (s', ends) = acquire_all-several txn s several d idle in
        (
          s',
          elim ends [
            | inl granted ↦ inl granted
            | inr (e, refused) ↦ inr (inl (e, several, refused))
          ],
        )
    | inr few ↦ acquire_all-few txn s few
  ]
