-- ===== src/Processor/Exclusive/Arrivals.antt =====
-- LockManagerA: the tables stay orderly when a transaction has got its locks, has been refused them, or
-- has to wait for its only one.
use database_concurrency_con.Prelude.{
  ℕ, ◌≡◌, refl, ap, ◌∙◌, sym, Bool, true, false, List, [], ◌∷◌, ◌++◌, Option, arith, All, contains,
  Distinct, Bool-cases, inl, inr, if◌then◌else◌, ◌==◌, ==→≡, ==_self, ℤ,
}
use database_concurrency_con.LockManager.Requests.{
  exclusive, LockRequest, request, txns_of, Tables, queue,
}
use database_concurrency_con.Processor.Exclusive.Acquires.{Taken, Refused, empty_queue}
use database_concurrency_con.Processor.Exclusive.Orderly.{
  only, Behind, IsDeque, IsOrderly, IsDeque-keep, absent_idle,
}
use database_concurrency_con.Processor.Exclusive.Starts.{Waits}

absent-snoc :
    (a t : ℕ) (q : List LockRequest)
    → contains a (txns_of q) ≡ false
    → (a == t) ≡ false
    → contains a (txns_of (q ++ request exclusive t ∷ [])) ≡ false
absent-snoc a t [] e n = ground (arith, n)
absent-snoc a t (x ∷ q) e n = ground (arith, e, absent-snoc a t q (ground (arith, e)) n)

Behind-snoc :
    (wanted : ℕ → ℕ → Bool) (t k : ℕ) (q : List LockRequest)
    → wanted t k ≡ true
    → contains t (txns_of q) ≡ false
    → All (Behind wanted k) q
    → Distinct (txns_of q)
    → All (Behind wanted k) (q ++ request exclusive t ∷ [])
      × Distinct (txns_of (q ++ request exclusive t ∷ []))
Behind-snoc wanted t k [] w out all d = (((refl, w), tt), (refl, tt))
Behind-snoc wanted t k (r ∷ q) w out all d =
    let (behind, distinct) = Behind-snoc wanted t k q w (ground (arith, out)) all.1 d.1 in
    (
      (all.0, behind),
      (absent-snoc r.txn t q d.0 (ground (arith, out, ==_self t, ==→≡ r.txn t)), distinct),
    )

module _ (keys : ℕ → List ℕ) (held wanted : ℕ → ℕ → Bool) (t : ℕ) (s s' : Tables) where
  -- The transaction holds nothing and waits for nothing.
  abbrev pub Idle : Type 0
  Idle = (j : ℕ) → (held t j ≡ false) × (wanted t j ≡ false)

  pub absent_everywhere :
      Idle → IsOrderly keys held wanted s → (j : ℕ) → contains t (txns_of (queue s j)) ≡ false
  absent_everywhere idle o j =
      absent_idle held wanted t j (queue s j) (o.deques j) (idle j).0 (idle j).1

  pub granted-IsOrderly :
      Idle
      → Taken t (keys t) s s'
      → IsOrderly keys held wanted s
      → IsOrderly keys (λ a j. if a == t then contains j (keys t) else held a j) wanted s'
  granted-IsOrderly idle (free, quiet, queues) o =
      let held' : ℕ → ℕ → Bool = λ a j. if a == t then contains j (keys t) else held a j in
      record {
        deques = λ j. elim (Bool-cases (contains j (keys t))) [
          | inl e ↦ rw (queues j, e) (refl, ground (arith, e, ==_self t), tt, (refl, tt))
          | inr e ↦
              rw (queues j, e)
                (IsDeque-keep held held' wanted wanted j (queue s j)
                  (λ a m h. ground (arith, h, (idle j).0, ==→≡ a t)) (λ a m w. w) (o.deques j))
        ];
        fronts = λ a j h. elim (Bool-cases (contains j (keys t))) [
          | inl e ↦ elim (Bool-cases (a == t)) [
            | inl mine ↦ rw (queues j, e, ==→≡ a t mine) ([], refl)
            | inr other ↦
                let (q, front) = o.fronts a j (ground (arith, h, other)) in
                absurd (ground (arith, front, empty_queue t (keys t) s free j e))
          ]
          | inr e ↦ rw (queues j, e) (o.fronts a j (ground (arith, h, e)))
        ];
        waiting = λ a j w.
            let (none_held, waits, one) = o.waiting a j w in
            (
              λ i. ground (arith, none_held i, w, (idle j).1, ==→≡ a t),
              ap (λ (f : ℕ → Option ℤ). f a) quiet.1 ∙ waits,
              one,
            );
        resting = λ a j one w. ap (λ (f : ℕ → Option ℤ). f a) quiet.1 ∙ o.resting a j one w;
      }

  pub Refused-IsOrderly :
      ((k : ℕ) → only k (keys t) ≡ false)
      → Refused t s s'
      → IsOrderly keys held wanted s
      → IsOrderly keys held wanted s'
  Refused-IsOrderly several (ready, others, queues) o =
      let other : (a j : ℕ) → only j (keys a) ≡ true → (t == a) ≡ false = λ a j one.
        elim (Bool-cases (t == a)) [
          | inl e ↦ ground (arith, one, rw (==→≡ t a e) at (several j))
          | inr e ↦ e
        ] in
      record {
        deques = λ j. rw (queues j) (o.deques j);
        fronts = λ a j h. rw (queues j) (o.fronts a j h);
        waiting = λ a j w.
            let (none_held, waits, one) = o.waiting a j w in
            (none_held, others a (other a j one) ∙ waits, one);
        resting = λ a j one w. others a (other a j one) ∙ o.resting a j one w;
      }

  pub Waits-IsOrderly :
      (k : ℕ)
      → keys t ≡ k ∷ []
      → Idle
      → Waits t k s s'
      → IsOrderly keys held wanted s
      → IsOrderly keys held (λ a j. if a == t then j == k else wanted a j) s'
  Waits-IsOrderly k one idle (r, q, e, after) o =
      let wanted' : ℕ → ℕ → Bool = λ a j. if a == t then j == k else wanted a j in
      let rest = o.resting t k (rw one (==_self k)) (idle k).1 in
      let grows : (j : ℕ) → IsDeque held wanted' j (queue s j) = λ j.
        IsDeque-keep held held wanted wanted' j (queue s j) (λ a m h. h)
          (λ a m w. ground (arith, w, (idle j).1, ==→≡ a t)) (o.deques j) in
      let out = rw e at (absent_everywhere idle o k) in
      let (mode, front, behind, distinct) = rw e at (grows k) in
      let (behind', distinct') =
        Behind-snoc wanted' t k q (ground (arith, ==_self t, ==_self k)) (ground (arith, out))
          behind distinct.1 in
      rw after (record {
        deques = λ j. elim (Bool-cases (k == j)) [
          | inl at ↦
              rw (sym (==→≡ k j at), ==_self k)
                (
                  mode,
                  front,
                  behind',
                  (
                    absent-snoc r.txn t q distinct.0 (ground (arith, out, ==_self t, ==→≡ r.txn t)),
                    distinct',
                  ),
                )
          | inr at ↦ rw at (grows j)
        ];
        fronts = λ a j h. elim (Bool-cases (k == j)) [
          | inl at ↦
              let (q', e') = o.fronts a k (rw (sym (==→≡ k j at)) at h) in
              (q ++ request exclusive t ∷ [], ground (arith, at, e, e'))
          | inr at ↦ rw at (o.fronts a j h)
        ];
        waiting = λ a j w. elim (Bool-cases (a == t)) [
          | inl mine ↦
              let here = ==→≡ j k (ground (arith, w, mine)) in
              rw (==→≡ a t mine, here)
                (λ i. (idle i).0, ground (arith, ==_self t, rest), rw one (==_self k))
          | inr other ↦
              let (none_held, waits, one') = o.waiting a j (ground (arith, w, other)) in
              (none_held, ground (arith, waits, other, ==→≡ t a, ==_self a), one')
        ];
        resting = λ a j one' w. elim (Bool-cases (a == t)) [
          | inl mine ↦ absurd (ground (arith, w, mine, rw (==→≡ a t mine, one) at one'))
          | inr other ↦ ground (arith, w, other, ==→≡ t a, ==_self a, o.resting a j one')
        ];
      })
