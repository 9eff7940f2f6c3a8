-- ===== src/Processor/Exclusive/Wakes.antt =====
-- LockManagerA: the tables stay orderly when the transaction in front of a deque releases the key.
use database_concurrency_con.Prelude.{
  ℕ, ◌≡◌, refl, ◌∙◌, sym, Bool, true, false, ◌&&◌, List, [], ◌∷◌, ◌++◌, none, some, arith, contains,
  Bool-cases, inl, inr, if◌then◌else◌, ◌==◌, ==→≡, ==_self, update,
}
use database_concurrency_con.LockManager.Requests.{
  exclusive, LockRequest, request, txns_of, Tables, queue,
}
use database_concurrency_con.LockManager.Granted.{erase_first}
use database_concurrency_con.LockManager.ManagerA.{release, serve, serve_next}
use database_concurrency_con.LockManager.ManagerA.Locks.{set_queue, release_lem}
use database_concurrency_con.Processor.Exclusive.Deques.{table_of}
use database_concurrency_con.Processor.Exclusive.Orderly.{
  IsOrderly, only-once, IsDeque-keep, All-Behind,
}

-- What is held when `t` no longer holds `k`.
abbrev pub dropped : (ℕ → ℕ → Bool) → ℕ → ℕ → ℕ → ℕ → Bool
dropped held t k a j = if a == t && j == k then false else held a j

-- What is held when `r` holds `k` too.
abbrev pub gained : (ℕ → ℕ → Bool) → ℕ → ℕ → ℕ → ℕ → Bool
gained held r k a j = if a == r && j == k then true else held a j

-- What is wanted when `r` no longer waits.
abbrev pub served : (ℕ → ℕ → Bool) → ℕ → ℕ → ℕ → Bool
served wanted r a j = if a == r then false else wanted a j

-- `r`, which waited for one lock, has the lock of `k`, whose deque is `q` now.
abbrev pub wake : ℕ → ℕ → List LockRequest → Tables → Tables
wake r k q s = record (set_queue k q s) {
  ready_txns = s.ready_txns ++ r ∷ [];
  txn_waits = update s.txn_waits r none;
}

module _ (keys : ℕ → List ℕ) (held wanted : ℕ → ℕ → Bool) (t k : ℕ) (s : Tables) where
  -- Who holds the key is in front.
  holder :
      (q : List LockRequest)
      → queue s k ≡ request exclusive t ∷ q
      → IsOrderly keys held wanted s
      → (a : ℕ) → held a k ≡ true
      → (a == t) ≡ true
  holder q e o a h = let (q', e') = o.fronts a k h in ground (arith, e, e', ==_self t)

  holder-dropped :
      (q : List LockRequest)
      → queue s k ≡ request exclusive t ∷ q
      → IsOrderly keys held wanted s
      → (a j : ℕ) → (k == j) ≡ true
      → dropped held t k a j ≡ false
  holder-dropped q e o a j at = elim (Bool-cases (held a j)) [
    | inl h ↦
        let mine = holder q e o a (rw (sym (==→≡ k j at)) at h) in
        ground (arith, mine, at, ==→≡ k j at, ==_self k)
    | inr h ↦ ground (arith, h)
  ]

  -- Who waits for another key is not the one that waits for this key.
  waits_elsewhere :
      (r j a : ℕ)
      → IsOrderly keys held wanted s
      → wanted r k ≡ true
      → (k == j) ≡ false
      → wanted a j ≡ true
      → (a == r) ≡ false
  waits_elsewhere r j a o w n h = elim (Bool-cases (a == r)) [
    | inl e ↦
        let there = (o.waiting r j (rw (==→≡ a r e) at h)).2 in
        let same = only-once k j (keys r) (o.waiting r k w).2 there in
        ground (arith, rw same at n, ==_self j)
    | inr e ↦ e
  ]

  -- Nobody waits behind the transaction.
  pub release-last :
      queue s k ≡ request exclusive t ∷ []
      → IsOrderly keys held wanted s
      → (release t k s ≡ some (set_queue k [] s))
        × IsOrderly keys (dropped held t k) wanted (set_queue k [] s)
  unfolding serve_next erase_first
  release-last e o = (
    (release_lem t k s).0 _ (table_of k s _ _ e) ∙ ground (arith, ==_self t),
    record {
      deques = λ j. elim (Bool-cases (k == j)) [
        | inl h ↦ rw h tt
        | inr h ↦ rw h (
            IsDeque-keep held (dropped held t k) wanted wanted j (queue s j)
              (λ a m g. ground (arith, h, g)) (λ a m g. g) (o.deques j))
      ];
      fronts = λ a j h. elim (Bool-cases (k == j)) [
        | inl at ↦ ground (arith, h, holder-dropped [] e o a j at)
        | inr at ↦ rw at (o.fronts a j (ground (arith, h)))
      ];
      waiting = λ a j h.
          let (idle, waits, one) = o.waiting a j h in (λ j. ground (arith, idle j), waits, one);
      resting = o.resting;
    },
  )

  -- The next in line gets the key.
  pub release-wakes :
      (r : LockRequest) (q : List LockRequest)
      → queue s k ≡ request exclusive t ∷ r ∷ q
      → IsOrderly keys held wanted s
      → (release t k s ≡ some (wake r.txn k (r ∷ q) s))
        × (wanted r.txn k ≡ true)
        × IsOrderly keys
            (gained (dropped held t k) r.txn k)
            (served wanted r.txn)
            (wake r.txn k (r ∷ q) s)
  unfolding serve_next serve erase_first
  release-wakes r q e o =
      let (mode, front, behind, distinct) = rw e at (o.deques k) in
      let (idle, waits, one) = o.waiting r.txn k behind.0.1 in
      let apart : (a : ℕ) → contains a (txns_of q) ≡ true → (a == r.txn) ≡ false = λ a m.
        elim (Bool-cases (a == r.txn)) [
          | inl same ↦ ground (arith, rw (==→≡ a r.txn same) at m, distinct.1.0)
          | inr other ↦ other
        ] in
      (
        (release_lem t k s).0 _ (table_of k s _ _ e) ∙ ground (arith, ==_self t, waits),
        behind.0.1,
        record {
          deques = λ j. elim (Bool-cases (k == j)) [
            | inl h ↦
                rw (sym (==→≡ k j h), ==_self k)
                  (
                    behind.0.0,
                    ground (arith, ==_self k, ==_self r.txn),
                    All-Behind wanted (served wanted r.txn) k q
                        (λ a m w. ground (arith, m, w, apart a m)) behind.1,
                    distinct.1,
                  )
            | inr h ↦ rw h (
                IsDeque-keep held (gained (dropped held t k) r.txn k) wanted (served wanted r.txn) j
                  (queue s j) (λ a m g. ground (arith, h, g))
                  (λ a m g. ground (arith, g, waits_elsewhere r.txn j a o behind.0.1 h g))
                  (o.deques j))
          ];
          fronts = λ a j h. elim (Bool-cases (k == j)) [
            | inl at ↦ (
              q,
              ground (arith, at, behind.0.0, h, holder-dropped (r ∷ q) e o a j at, ==→≡ a r.txn),
            )
            | inr at ↦ rw at (o.fronts a j (ground (arith, h, at)))
          ];
          waiting = λ a j h.
              let (idle', waits', one') = o.waiting a j (ground (arith, h)) in
              (
                λ i. ground (arith, h, idle' i),
                ground (arith, h, waits', ==_self a, ==→≡ r.txn a),
                one',
              );
          resting = λ a j one' w. elim (Bool-cases (r.txn == a)) [
            | inl same ↦ rw same refl
            | inr other ↦ rw other (o.resting a j one' (ground (arith, w, other)))
          ];
        },
      )
