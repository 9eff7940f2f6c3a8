-- ===== src/Processor/Locking/Rollback.antt =====
-- txn/txn_processor.cc: the two loops of `RunLockingScheduler` that ask for locks get all of them or
-- none. This is proved from what both lock managers do to the deques.
use database_concurrency_con.Prelude.{
  ℕ, ◌≡◌, inl, inr, refl, ap, ◌∙◌, sym, Bool, true, false, List, [], ◌∷◌, ◌++◌, append_assoc,
  append-nil, Option, some, arith, contains, contains-append, Distinct, Distinct-append_left,
  Distinct-middle, Bool-cases, false≢true, if◌then◌else◌, ◌==◌, ==→≡, ◌&&◌,
}
use database_concurrency_con.Txn.{Txn}
use database_concurrency_con.LockManager.Granted.{erase_first}
use database_concurrency_con.LockManager.Requests.{
  LockMode, exclusive, LockRequest, request, txns_of,
}
use database_concurrency_con.LockManager.ManagerA.Cancels.{erase_first-append}
use database_concurrency_con.LockManager.Interface.{LockManager, LockLaws}
use database_concurrency_con.Processor.Locking.{
  release_all, acquire, acquire_writes, acquire_all, is_several, ◌>>=◌,
}

contains-request :
    (t : ℕ) (q : List LockRequest) (mode : LockMode)
    → contains t (txns_of (q ++ request mode t ∷ [])) ≡ true
contains-request t [] mode = ground arith
contains-request t (r ∷ q) mode = ground (arith, contains-request t q mode)

module _ {S : Type 0} (m : LockManager S) (IsValid : S → Type 0) (laws : LockLaws m IsValid)
    (t : ℕ) where
  -- No key's deque has changed.
  abbrev SameQueues : S → S → Type 0
  SameQueues s s' = (j : ℕ) → m.queue s' j ≡ m.queue s j

  -- Each of the keys has one more request at the end of its deque, of `t`, and no other key's deque
  -- has changed.
  abbrev Asked : S → S → List ℕ → Type 0
  Asked s s' ks =
      (j : ℕ)
      → (contains j ks ≡ false → m.queue s' j ≡ m.queue s j)
        × (contains j ks ≡ true
            → (mode : LockMode) × (m.queue s' j ≡ m.queue s j ++ request mode t ∷ []))

  -- The transaction has asked for no key.
  abbrev IsIdle : S → Type 0
  IsIdle s = (j : ℕ) → contains t (txns_of (m.queue s j)) ≡ false

  -- The release of the first key leaves the others asked for.
  release-Asked :
      (k : ℕ) (ks : List ℕ) (s₀ s s₁ : S)
      → contains k ks ≡ false
      → IsIdle s₀
      → Asked s₀ s (k ∷ ks)
      → ((j : ℕ) → m.queue s₁ j ≡ (if k == j then erase_first t (m.queue s k) else m.queue s j))
      → Asked s₀ s₁ ks
  release-Asked k ks s₀ s s₁ new idle asked queues j = elim (Bool-cases (k == j)) [
    | inl here ↦
        let e = ==→≡ k j here in
        let (mode, now) = (asked k).1 (ground arith) in
        (
          λ _.
              queues j
              ∙ rw (here, now, erase_first-append t (request mode t) (m.queue s₀ k) refl (idle k))
                  (ap (m.queue s₀) e),
          λ h. absurd (false≢true (sym new ∙ rw e h)),
        )
    | inr there ↦ (
      λ out. queues j ∙ rw there ((asked j).0 (ground arith)),
      λ h. let (mode, now) = (asked j).1 (ground arith) in (mode, queues j ∙ rw there now),
    )
  ]

  release_all-SameQueues :
      (ks : List ℕ) (s₀ s : S)
      → Distinct ks
      → IsIdle s₀
      → IsValid s
      → Asked s₀ s ks
      → (s' : S) × (release_all m t ks s ≡ some s') × IsValid s' × SameQueues s₀ s'
  unfolding release_all
  release_all-SameQueues [] s₀ s d idle v asked = (s, refl, v, λ j. (asked j).0 refl)
  release_all-SameQueues (k ∷ ks) s₀ s d idle v asked =
      let (mode, now) = (asked k).1 (ground arith) in
      let (s₁, released, v₁, queues) =
        laws.release_lem t k s v (rw now (contains-request t (m.queue s₀ k) mode)) in
      let (s', rest, v', same) =
        release_all-SameQueues ks s₀ s₁ d.1 idle v₁
          (release-Asked k ks s₀ s s₁ d.0 idle asked queues) in
      (s', rw released rest, v', same)

  -- A method that asks for locks.
  abbrev Asks : (ℕ → ℕ → S → Bool × S) → LockMode → Type 0
  Asks lock mode =
      (k : ℕ) (s : S)
      → IsValid s
      → contains t (txns_of (m.queue s k)) ≡ false
      → IsValid (lock t k s).1
        × ((j : ℕ)
            → m.queue (lock t k s).1 j
              ≡ (if k == j then m.queue s k ++ request mode t ∷ [] else m.queue s j))

  ask-Asked :
      (mode : LockMode) (before : List ℕ) (k : ℕ) (s₀ s s' : S)
      → contains k before ≡ false
      → Asked s₀ s before
      → ((j : ℕ)
          → m.queue s' j ≡ (if k == j then m.queue s k ++ request mode t ∷ [] else m.queue s j))
      → Asked s₀ s' (before ++ k ∷ [])
  ask-Asked mode before k s₀ s s' new asked queues j = elim (Bool-cases (k == j)) [
    | inl here ↦
        let e = ==→≡ k j here in
        (
          λ out. absurd (false≢true (sym out ∙ ground (arith, contains-append j before (k ∷ [])))),
          λ _. (
            mode,
            queues j
                ∙ rw (here, (asked k).0 new)
                    (ap (λ (i : ℕ). m.queue s₀ i ++ request mode t ∷ []) e),
          ),
        )
    | inr there ↦ (
      λ out. queues j ∙ rw there ((asked j).0 (ground (arith, contains-append j before (k ∷ [])))),
      λ h.
          let (md, now) = (asked j).1 (ground (arith, contains-append j before (k ∷ []))) in
          (md, queues j ∙ rw there now),
    )
  ]

  -- Whether the lock manager grants every one of the requests, when the keys are asked for in turn,
  -- and its state after all of them.
  all_granted : (ℕ → ℕ → S → Bool × S) → List ℕ → S → Bool
  all_granted lock [] s = true
  all_granted lock (k ∷ ks) s =
      let (ok, s') = lock t k s in let rest = all_granted lock ks s' in if ok then rest else false

  asked_state : (ℕ → ℕ → S → Bool × S) → List ℕ → S → S
  asked_state lock [] s = s
  asked_state lock (k ∷ ks) s = asked_state lock ks (lock t k s).1

  -- How the loops that ask for locks end, if the transaction has several keys: where every request is
  -- granted it is not blocked, and `last`, the state after the requests, is the result; where one is
  -- not, it is blocked, and the deques are what they were.
  abbrev pub AllOrNothing : Bool → S → S → List ℕ → Option (Bool × S) → Type 0
  AllOrNothing true last s₀ ks r = (r ≡ some (false, last)) × IsValid last × Asked s₀ last ks
  AllOrNothing false last s₀ ks r = (s' : S) × (r ≡ some (true, s')) × IsValid s' × SameQueues s₀ s'

  acquire-AllOrNothing :
      (lock : ℕ → ℕ → S → Bool × S) (mode : LockMode)
      → Asks lock mode
      → (before ks : List ℕ) (s₀ s : S) → Distinct (before ++ ks)
      → IsIdle s₀
      → IsValid s
      → Asked s₀ s before
      → AllOrNothing
          (all_granted lock ks s)
          (asked_state lock ks s)
          s₀
          (before ++ ks)
          (acquire m lock true t before ks false s)
  unfolding acquire all_granted asked_state
  acquire-AllOrNothing lock mode asks before [] s₀ s d idle v asked =
      (refl, v, rw (append-nil before) asked)
  acquire-AllOrNothing lock mode asks before (k ∷ ks) s₀ s d idle v asked =
      let new = Distinct-middle before k ks d in
      let (v', queues) = asks k s v (rw ((asked k).0 new) (idle k)) in
      let asked' = ask-Asked mode before k s₀ s (lock t k s).1 new asked queues in
      let d' : Distinct ((before ++ k ∷ []) ++ ks) = rw (append_assoc before (k ∷ []) ks) d in
      elim (Bool-cases (lock t k s).0) [
        | inl ok ↦
            let later =
              acquire-AllOrNothing lock mode asks (before ++ k ∷ []) ks s₀ (lock t k s).1 d' idle v'
                asked' in
            rw ok (rw (append_assoc before (k ∷ []) ks) at later)
        | inr refused ↦
            let (s'', released, v'', same) =
              release_all-SameQueues (before ++ k ∷ []) s₀ (lock t k s).1
                (Distinct-append_left (before ++ k ∷ []) ks d') idle v' asked' in
            rw refused (s'', rw released refl, v'', same)
      ]

  -- The answers to the requests of both loops, and the state after them.
  pub both_granted : Txn → S → Bool
  both_granted txn s =
      all_granted m.read_lock txn.readset s
      && all_granted m.write_lock txn.writeset (asked_state m.read_lock txn.readset s)

  pub both_asked : Txn → S → S
  both_asked txn s = asked_state m.write_lock txn.writeset (asked_state m.read_lock txn.readset s)

  writes-AllOrNothing :
      (txn : Txn) (s s' : S)
      → Distinct (txn.readset ++ txn.writeset)
      → IsIdle s
      → (granted : Bool) → (r : Option (Bool × S)) → AllOrNothing granted s' s txn.readset r
      → AllOrNothing
          (granted && all_granted m.write_lock txn.writeset s')
          (asked_state m.write_lock txn.writeset s')
          s
          (txn.readset ++ txn.writeset)
          (r >>= acquire_writes m true t txn)
  unfolding acquire_writes
  writes-AllOrNothing txn s s' d idle true r (got, v, asked) = rw got (
      acquire-AllOrNothing m.write_lock exclusive (laws.write_lock_lem t) txn.readset txn.writeset s
        s' d idle v asked)
  writes-AllOrNothing txn s s' d idle false r (s'', got, v, same) = (s'', rw got refl, v, same)

  -- With any lock manager whose methods change the deques as LockLaws says, in a valid state, a
  -- transaction of several keys, all different, that has asked for none gets all of its locks or
  -- none. If the lock manager grants every request, asked in the order of the sets, the transaction
  -- is not blocked, stands at the end of each of its keys' deques, and no other deque has changed;
  -- and the lock manager has seen these requests and nothing else. If it refuses one, the transaction
  -- is blocked, and every key's deque is in the end what it was before the first request.
  pub acquire_all-AllOrNothing :
      (txn : Txn) (s : S)
      → is_several m txn ≡ true
      → Distinct (txn.readset ++ txn.writeset)
      → IsIdle s
      → IsValid s
      → AllOrNothing
          (both_granted txn s)
          (both_asked txn s)
          s
          (txn.readset ++ txn.writeset)
          (acquire_all m t txn s)
  unfolding acquire_all both_granted both_asked
  acquire_all-AllOrNothing txn s several d idle v =
      let nothing : Asked s s [] = λ j. (λ _. refl, λ h. absurd (false≢true h)) in
      rw several (
        writes-AllOrNothing txn s (asked_state m.read_lock txn.readset s) d idle
          (all_granted m.read_lock txn.readset s) _
          (acquire-AllOrNothing m.read_lock laws.read_mode (laws.read_lock_lem t) [] txn.readset s s
            (Distinct-append_left txn.readset txn.writeset d) idle v nothing))
