-- ===== src/LockManager/ManagerB/Releases.antt =====
-- LockManagerB: what `Release` does to the deque, to the waiting transactions and to the count.
use database_concurrency_con.Prelude.{
  ℕ, ◌+◌, ◌-◌, ◌%◌, ◌^◌, ◌<◌, ◌≡◌, ◌↔◌, refl, ap, ◌∙◌, List, [], ◌++◌, Option, some, get_or, arith,
  contains, Distinct, All, if◌then◌else◌, ◌==◌, update-update, Option-cases, inl, inr, ==_self,
}
use database_concurrency_con.LockManager.Requests.{
  LockRequest, LockMode, is_exclusive, queue, txns_of,
}
use database_concurrency_con.LockManager.Granted.{erase_first, IsRequest, granted, exclusives}
use database_concurrency_con.LockManager.ManagerB.{
  ManagerB, set_queue, index_of, erase_request, advance_key, advance_all, release,
}
use database_concurrency_con.LockManager.ManagerB.Owners.{
  get_lock_queue_lem, status_lem, status_queue-granted,
}
use database_concurrency_con.LockManager.ManagerB.Advances.{last_waits, less_wait, advance_all_lem}
use database_concurrency_con.LockManager.ManagerB.Erasures.{
  mode_of, erase_at-index_of, erase_first_absent, erase_first-IsRequest, erase_first-Distinct,
  granted-Distinct, no_owners, exclusives-erase_first,
}

module _ (stale : List LockRequest → ℕ → LockMode) (t k : ℕ) where
  erase_request_lem :
      (q : List LockRequest) (s : ManagerB)
      → (erase_request stale t k q (set_queue k q s)).tables
        ≡ (set_queue k (erase_first t q) s).tables
  unfolding erase_request
  erase_request_lem q s = elim (Option-cases (index_of t q)) [
    | inl e ↦ rw (e, erase_request, erase_first_absent t q e) refl
    | inr (i, e) ↦
        rw
          (
            e,
            erase_request,
            erase_at-index_of t i q e,
            update-update s.lock_table k (some q) (some (erase_first t q)),
          )
          (ground arith)
  ]

  erased-queue :
      (s : ManagerB)
      → queue
          (erase_request stale t k (queue s.tables k) (set_queue k (queue s.tables k) s)).tables
          k
        ≡ erase_first t (queue s.tables k)
  erased-queue s = rw (erase_request_lem (queue s.tables k) s, ==_self k)

  -- `Release` is: erase the request, and let the owners of what is left advance.
  release_lem :
      (s : ManagerB)
      → All IsRequest (queue s.tables k)
      → let s' = erase_request stale t k (queue s.tables k) (set_queue k (queue s.tables k) s) in
        release stale t k s
        ≡ advance_all
            (txns_of (granted (erase_first t (queue s.tables k))))
            (set_queue k (erase_first t (queue s.tables k)) s')
  unfolding release advance_key
  release_lem s h = rw (
    get_lock_queue_lem k s,
    status_lem k (some []) s',
    erased-queue s,
    status_queue-granted q [] (erase_first-IsRequest t (queue s.tables k) h),
    no_owners q,
  )
    where
      s' : ManagerB
      s' = erase_request stale t k (queue s.tables k) (set_queue k (queue s.tables k) s)

      q : List LockRequest
      q = erase_first t (queue s.tables k)

  -- On a deque of shared and exclusive requests with no transaction twice, `Release` removes
  -- the transaction's request for the key and no other. The owners of the key that are left
  -- advance: each that has an entry in `txn_waits_` waits for one lock less, and those for
  -- which it was the last one become ready, in the order of the deque. This holds whatever the
  -- erased iterator reads.
  pub release-advances :
      (s : ManagerB)
      → All IsRequest (queue s.tables k)
      → Distinct (txns_of (queue s.tables k))
      → let s' = release stale t k s in
        let owners = txns_of (granted (erase_first t (queue s.tables k))) in
        ((j : ℕ)
          → queue s'.tables j
            ≡ (if k == j then erase_first t (queue s.tables k) else queue s.tables j))
        × (s'.ready_txns ≡ s.ready_txns ++ last_waits s.txn_waits owners)
        × ((o : ℕ)
            → s'.txn_waits o
              ≡ (if contains o owners then less_wait (s.txn_waits o) else s.txn_waits o))
  release-advances s h d =
      rw (release_lem s h, erase_request_lem (queue s.tables k) s)
        (let q = erase_first t (queue s.tables k) in
          let all =
            advance_all_lem (txns_of (granted q))
              (set_queue k q
                (erase_request stale t k (queue s.tables k) (set_queue k (queue s.tables k) s)))
              (granted-Distinct q (erase_first-Distinct t (queue s.tables k) d)) in
          let all' = rw (erase_request_lem (queue s.tables k) s) at all in
          (
            λ j. ap (λ (f : ℕ → Option (List LockRequest)). get_or (f j) []) all'.2 ∙ ground arith,
            all'.0,
            all'.1,
          ))

module _ (stale : List LockRequest → ℕ → LockMode) (t k i : ℕ) where
  erase_request-count :
      (s : ManagerB)
      → index_of t (queue s.tables k) ≡ some i
      → (erase_request stale t k
            (queue s.tables k)
            (set_queue k (queue s.tables k) s)).num_exclusive
          k
        ≡ (if is_exclusive (stale (queue s.tables k) i)
            then (s.num_exclusive k + 2 ^ 64 - 1) % 2 ^ 64
            else s.num_exclusive k)
  unfolding erase_request
  erase_request-count s e = rw (e, erase_request) (ground arith)

  release-count :
      (s : ManagerB)
      → All IsRequest (queue s.tables k)
      → Distinct (txns_of (queue s.tables k))
      → index_of t (queue s.tables k) ≡ some i
      → (release stale t k s).num_exclusive k ≡ (
          if is_exclusive (stale (queue s.tables k) i)
          then (s.num_exclusive k + 2 ^ 64 - 1) % 2 ^ 64
          else s.num_exclusive k)
  release-count s h d e = rw (release_lem stale t k s h) (
      let q = erase_first t (queue s.tables k) in
      let all =
        advance_all_lem (txns_of (granted q))
          (set_queue k q
            (erase_request stale t k (queue s.tables k) (set_queue k (queue s.tables k) s)))
          (granted-Distinct q (erase_first-Distinct t (queue s.tables k) d)) in
      ap (λ (f : ℕ → ℕ). f k) all.3 ∙ erase_request-count s e)

  -- On a deque of shared and exclusive requests with no transaction twice, in which the
  -- transaction stands and whose exclusive requests are counted right and are fewer than 2 ^
  -- 64, the count is right after `Release` if and only if the read through the erased iterator
  -- still finds whether the erased request was exclusive.
  pub release-counts_iff :
      (s : ManagerB)
      → All IsRequest (queue s.tables k)
      → Distinct (txns_of (queue s.tables k))
      → index_of t (queue s.tables k) ≡ some i
      → s.num_exclusive k ≡ exclusives (queue s.tables k)
      → exclusives (queue s.tables k) < 2 ^ 64
      → ((release stale t k s).num_exclusive k ≡ exclusives (queue (release stale t k s).tables k))
        ↔ (is_exclusive (stale (queue s.tables k) i) ≡ is_exclusive (mode_of t (queue s.tables k)))
  release-counts_iff s h d e c small =
      let count = release-count s h d e in
      let table = (release-advances stale t k s h d).0 k in
      let left = exclusives-erase_first t i (queue s.tables k) e in
      (λ right. ground (arith, count, table, left), λ same. ground (arith, count, table, left))
