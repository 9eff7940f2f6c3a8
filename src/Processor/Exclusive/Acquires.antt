-- ===== src/Processor/Exclusive/Acquires.antt =====
-- The loops that ask LockManagerA for locks: what they leave in the deques, in `ready_txns_` and in
-- `txn_waits_`.
use database_concurrency_con.Prelude.{
  ℕ, ◌≡◌, ◌⊎◌, inl, inr, refl, ap, ◌∙◌, sym, Bool, true, false, List, [], ◌∷◌, ◌++◌, append_assoc,
  append-nil, Option, some, arith, All, contains, contains-append, Distinct, Distinct-append_left,
  Distinct-middle, Bool-cases, List-cases, if◌then◌else◌, ◌==◌, ==→≡, ==_self,
}
use database_concurrency_con.LockManager.Requests.{
  exclusive, LockRequest, request, txns_of, Tables, queue,
}
use database_concurrency_con.LockManager.ManagerA.{write_lock}
use database_concurrency_con.LockManager.ManagerA.Locks.{set_queue, add_wait}
use database_concurrency_con.LockManager.Implementations.{manager_a}
use database_concurrency_con.Processor.Locking.{release_all, acquire}
use database_concurrency_con.Processor.Exclusive.Deques.{
  release_last, write_lock_empty, write_lock_full,
}

-- Nobody becomes ready, and no count of waits changes.
abbrev Quiet : Tables → Tables → Type 0
Quiet s s' = (s'.ready_txns ≡ s.ready_txns) × (s'.txn_waits ≡ s.txn_waits)

module _ (t : ℕ) where
  -- The requests of `t` for the keys are at the ends of deques without `t`, which are `q₀` but for
  -- them.
  abbrev Last : List ℕ → (ℕ → List LockRequest) → Tables → Type 0
  Last ks q₀ s =
      All
        (λ k.
          (queue s k ≡ q₀ k ++ request exclusive t ∷ []) × (contains t (txns_of (q₀ k)) ≡ false))
        ks

  Last-set :
      (k : ℕ) (q : List LockRequest) (ks : List ℕ) (q₀ : ℕ → List LockRequest) (s : Tables)
      → contains k ks ≡ false
      → Last ks q₀ s
      → Last ks q₀ (set_queue k q s)
  Last-set k q [] q₀ s out last = tt
  Last-set k q (j ∷ ks) q₀ s out last =
      ((ground (arith, out, last.0.0), last.0.1), Last-set k q ks q₀ s (ground (arith, out)) last.1)

  rollback :
      (ks : List ℕ) (q₀ : ℕ → List LockRequest) (s : Tables)
      → Distinct ks
      → Last ks q₀ s
      → (s' : Tables) × (release_all manager_a t ks s ≡ some s')
        × Quiet s s'
        × ((j : ℕ) → queue s' j ≡ (if contains j ks then q₀ j else queue s j))
  unfolding release_all
  rollback [] q₀ s d last = (s, refl, (refl, refl), λ j. refl)
  rollback (k ∷ ks) q₀ s d last =
      let s₁ = set_queue k (q₀ k) s in
      let (s', ran, quiet, queues) = rollback ks q₀ s₁ d.1 (Last-set k (q₀ k) ks q₀ s d.0 last.1) in
      (
        s',
        rw (release_last t k s (q₀ k) last.0.0 last.0.1) ran,
        quiet,
        λ j. elim (Bool-cases (j == k)) [
          | inl e ↦ queues j ∙ rw (==→≡ j k e, d.0, ==_self k) refl
          | inr e ↦ queues j ∙ ground (arith, e)
        ],
      )

  -- The transaction has asked for the keys, each of which has an empty deque in `s`.
  abbrev pub Taken : List ℕ → Tables → Tables → Type 0
  Taken ks s s' =
      All (λ k. queue s k ≡ []) ks
      × Quiet s s'
      × ((j : ℕ) → queue s' j ≡ (if contains j ks then request exclusive t ∷ [] else queue s j))

  -- Nothing has changed but the count of the transaction's waits.
  abbrev pub Refused : Tables → Tables → Type 0
  Refused s s' =
      (s'.ready_txns ≡ s.ready_txns)
      × ((j : ℕ) → (t == j) ≡ false → s'.txn_waits j ≡ s.txn_waits j)
      × ((j : ℕ) → queue s' j ≡ queue s j)

  -- How a loop ends: all locks are granted, or one has been refused.
  abbrev pub TakesAll : List ℕ → Tables → Option (Bool × Tables) → Type 0
  TakesAll ks s r =
      (s' : Tables) × ((r ≡ some (false, s')) × Taken ks s s'
        ⊎ (r ≡ some (true, s')) × Refused s s')

  All-snoc : (P : ℕ → Type 0) (ks : List ℕ) (k : ℕ) → All P ks → P k → All P (ks ++ k ∷ [])
  All-snoc P [] k all last = (last, tt)
  All-snoc P (j ∷ ks) k all last = (all.0, All-snoc P ks k all.1 last)

  -- After the refusal of a request the requests so far are the last ones of their deques.
  Taken-Last :
      (before asked : List ℕ) (s s' : Tables)
      → ((j : ℕ) → contains j before ≡ true → contains j asked ≡ true)
      → ((j : ℕ) → contains t (txns_of (queue s j)) ≡ false)
      → ((j : ℕ) → contains j asked ≡ true → queue s' j ≡ queue s j ++ request exclusive t ∷ [])
      → Last before (queue s) s'
  Taken-Last [] asked s s' sub idle queues = tt
  Taken-Last (k ∷ ks) asked s s' sub idle queues = (
    (queues k (sub k (ground arith)), idle k),
    Taken-Last ks asked s s' (λ j e. sub j (ground arith)) idle queues,
  )

  pub empty_queue :
      (ks : List ℕ) (s : Tables)
      → All (λ k. queue s k ≡ []) ks
      → (j : ℕ) → contains j ks ≡ true
      → queue s j ≡ []
  empty_queue [] s h j e = ground (arith, e)
  empty_queue (k ∷ ks) s h j e = elim (Bool-cases (j == k)) [
    | inl here ↦ rw (==→≡ j k here) h.0
    | inr there ↦ empty_queue ks s h.1 j (ground (arith, e, there))
  ]

  acquire-end :
      (lock : ℕ → ℕ → Tables → Bool × Tables) (before : List ℕ) (s : Tables)
      → acquire manager_a lock true t before [] false s ≡ some (false, s)
  unfolding acquire
  acquire-end lock before s = refl

  acquire-granted :
      (lock : ℕ → ℕ → Tables → Bool × Tables) (before ks : List ℕ) (k : ℕ) (s s' : Tables)
      → lock t k s ≡ (true, s')
      → acquire manager_a lock true t before (k ∷ ks) false s
        ≡ acquire manager_a lock true t (before ++ k ∷ []) ks false s'
  unfolding acquire
  acquire-granted lock before ks k s s' e = rw e refl

  acquire-refused :
      (lock : ℕ → ℕ → Tables → Bool × Tables) (before ks : List ℕ) (k : ℕ) (s s' s'' : Tables)
      → lock t k s ≡ (false, s')
      → release_all manager_a t (before ++ k ∷ []) s' ≡ some s''
      → acquire manager_a lock true t before (k ∷ ks) false s ≡ some (true, s'')
  unfolding acquire
  acquire-refused lock before ks k s s' s'' e e' = rw (e, e') refl

  pub acquire-TakesAll :
      (lock : ℕ → ℕ → Tables → Bool × Tables)
      → ((k : ℕ) (s : Tables) → lock t k s ≡ write_lock t k s)
      → (before ks : List ℕ) (s₀ s : Tables) → Distinct (before ++ ks)
      → ((j : ℕ) → contains t (txns_of (queue s₀ j)) ≡ false)
      → Taken before s₀ s
      → TakesAll (before ++ ks) s₀ (acquire manager_a lock true t before ks false s)
  acquire-TakesAll lock same before [] s₀ s d idle taken =
      (s, inl (acquire-end lock before s, rw (append-nil before) taken))
  acquire-TakesAll lock same before (k ∷ ks) s₀ s d idle (free, quiet, queues) =
      let new = Distinct-middle before k ks d in
      let asked = before ++ k ∷ [] in
      let d' : Distinct (asked ++ ks) = rw (append_assoc before (k ∷ []) ks) d in
      let here : queue s k ≡ queue s₀ k = queues k ∙ rw new refl in
      elim (List-cases (queue s₀ k)) [
        | inl e ↦
            let s₁ = set_queue k (request exclusive t ∷ []) s in
            let taken : Taken asked s₀ s₁ = (
              All-snoc (λ k. queue s₀ k ≡ []) before k free e,
              quiet,
              λ j. ground (arith, queues j, contains-append j before (k ∷ [])),
            ) in
            let rest = acquire-TakesAll lock same asked ks s₀ s₁ d' idle taken in
            rw
              (
                acquire-granted lock before ks k s s₁
                    (same k s ∙ write_lock_empty t k s (here ∙ e)),
                sym (append_assoc before (k ∷ []) ks),
              )
              rest
        | inr (r, q, e) ↦
            let s₁ = add_wait t (set_queue k (r ∷ q ++ request exclusive t ∷ []) s) in
            let lasts : (j : ℕ)
                → contains j asked ≡ true
                → queue s₁ j ≡ queue s₀ j ++ request exclusive t ∷ [] =
              λ j h. elim (Bool-cases (j == k)) [
                | inl at ↦ rw (==→≡ j k at, ==_self k, e) refl
                | inr at ↦
                    let old : contains j before ≡ true =
                      ground (arith, h, at, contains-append j before (k ∷ [])) in
                    rw (empty_queue before s₀ free j old) (ground (arith, at, old, queues j))
              ] in
            let (s', ran, quiet', queues') =
              rollback asked (queue s₀) s₁ (Distinct-append_left asked ks d')
                (Taken-Last asked asked s₀ s₁ (λ j e. e) idle lasts) in
            (
              s',
              inr (
                acquire-refused lock before ks k s s₁ s'
                    (same k s ∙ write_lock_full t k s r q (here ∙ e)) ran,
                (
                  quiet'.0 ∙ quiet.0,
                  λ j n. ap (λ f. f j) quiet'.1 ∙ (ground (arith, n, ap (λ f. f j) quiet.1)),
                  λ j. queues' j ∙ (ground (arith, queues j, contains-append j before (k ∷ []))),
                ),
              ),
            )
      ]
