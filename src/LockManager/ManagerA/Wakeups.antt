-- ===== src/LockManager/ManagerA/Wakeups.antt =====
-- LockManagerA: who becomes ready when a holder releases a lock.
use database_concurrency_con.Prelude.{
  subst, ℕ, zero, suc, ◌+◌, ◌≡◌, refl, ap, ◌∙◌, sym, true, List, [], ◌∷◌, ◌++◌, Option, some,
  get_or, arith, contains, Distinct, if◌then◌else◌, ◌==◌, ==_self, ==→≡, update, Bool-cases, inl,
  inr, append-nil,
}
use database_concurrency_con.LockManager.Granted.{erase_first}
use database_concurrency_con.LockManager.Requests.{Tables, LockRequest, queue}
use database_concurrency_con.LockManager.ManagerA.{release, serve, serve_next}
use database_concurrency_con.LockManager.ManagerA.Locks.{set_queue, write_lock_lem, release_lem}
use database_concurrency_con.LockManager.ManagerA.Waits.{
  blocked, entry, Inv, Step, writes, reads, releases, Reach, start, next, Inv-change, start-Inv,
  write-Inv, blocked-update,
}

holder_release :
    (k : ℕ) (s : Tables) (r : LockRequest) (q : List LockRequest)
    → s.lock_table k ≡ some (r ∷ q)
    → release r.txn k s ≡ some (serve_next q true (set_queue k q s))
unfolding erase_first
holder_release k s r q e = (release_lem r.txn k s).0 (r ∷ q) e ∙ rw (==_self r.txn)

serve-entry :
    (t n : ℕ) (s : Tables)
    → s.txn_waits t ≡ entry (suc n)
    → serve t s ≡ record s {
      ready_txns = s.ready_txns ++ (if n == 0 then t ∷ [] else []);
      txn_waits = update s.txn_waits t (entry n);
    }
unfolding serve
serve-entry t zero s e = rw e
serve-entry t (suc n) s e = rw e (ground (arith, append-nil s.ready_txns))

module _ (ks : List ℕ) (s : Tables) (k : ℕ) (d : Distinct ks) (inv : Inv ks s)
    (h : contains k ks ≡ true) where
  -- The only request has gone.
  last_release : (r : LockRequest) → s.lock_table k ≡ some (r ∷ []) → Inv ks (set_queue k [] s)
  last_release r e =
      Inv-change ks s _ k d h inv (λ j n. ground arith) (λ o. ground arith)
        (λ o n sum. inv.exact o ∙ ap entry (ground arith))

  -- The next in line waited for this lock.
  waited :
      (r x : LockRequest) (q : List LockRequest)
      → s.lock_table k ≡ some (r ∷ x ∷ q)
      → blocked x.txn ks (queue (set_queue k (x ∷ q) s)) + 1 ≡ blocked x.txn ks (queue s)
  waited r x q e = ground (
    arith,
    inv.once k x.txn,
    blocked-update x.txn k ks (queue s) (queue (set_queue k (x ∷ q) s)) d h (λ j n. ground arith),
  )

  -- The state after the release of `r`, with `x` next in line.
  abbrev handed : LockRequest → List LockRequest → Tables
  handed x q =
      let s' = set_queue k (x ∷ q) s in
      let n = blocked x.txn ks (queue s') in
      record s' {
        ready_txns = s.ready_txns ++ (if n == 0 then x.txn ∷ [] else []);
        txn_waits = update s.txn_waits x.txn (entry n);
      }

  hand_over :
      (r x : LockRequest) (q : List LockRequest)
      → s.lock_table k ≡ some (r ∷ x ∷ q)
      → release r.txn k s ≡ some (handed x q)
  unfolding serve_next
  hand_over r x q e =
      holder_release k s r (x ∷ q) e
      ∙ ap some (
          serve-entry x.txn (blocked x.txn ks (queue (set_queue k (x ∷ q) s)))
            (set_queue k (x ∷ q) s)
            (inv.exact x.txn
              ∙ ap entry {y = suc (blocked x.txn ks (queue (set_queue k (x ∷ q) s)))}
                  (omega (arith, waited r x q e))))

  handed-Inv :
      (r x : LockRequest) (q : List LockRequest)
      → s.lock_table k ≡ some (r ∷ x ∷ q)
      → Inv ks (handed x q)
  handed-Inv r x q e =
      Inv-change ks s (handed x q) k d h inv (λ j n. ground arith)
        (λ o. ground (arith, inv.once k o))
        (λ o n sum. elim (Bool-cases (x.txn == o)) [
          | inl here ↦
              let o-next = ==→≡ x.txn o here in
              let same : blocked x.txn ks (queue (set_queue k (x ∷ q) s)) ≡ n = ground (
                arith,
                blocked-update x.txn k ks (queue s) (queue (set_queue k (x ∷ q) s)) d h
                    (λ j m. ground arith),
              ) in
              ground (arith, ap entry same)
          | inr there ↦
              let same : blocked o ks (queue s) ≡ n = ground arith in
              ground (arith, inv.exact o, ap entry same)
        ])

  release-Inv :
      {s' : Tables} (r : LockRequest) (q : List LockRequest)
      → s.lock_table k ≡ some (r ∷ q)
      → release r.txn k s ≡ some s'
      → Inv ks s'
  unfolding serve_next
  release-Inv r [] e run =
      subst (Inv ks)
        (ap (λ (o : Option Tables). get_or o s) (sym (holder_release k s r [] e) ∙ run))
        (last_release r e)
  release-Inv r (x ∷ q) e run =
      subst (Inv ks) (ap (λ (o : Option Tables). get_or o s) (sym (hand_over r x q e) ∙ run))
        (handed-Inv r x q e)

-- Every call, on one of the keys, that locks what the transaction has not asked for or releases
-- what it holds keeps the counts of `txn_waits_` exact and no transaction twice in a deque.
Step-Inv : {ks : List ℕ} {s s' : Tables} → Distinct ks → Step ks s s' → Inv ks s → Inv ks s'
Step-Inv {ks} {s} d (writes t k h fresh) inv = write-Inv ks s t k d inv h fresh
Step-Inv {ks} {s} d (reads t k h fresh) inv =
    rw ((write_lock_lem t k s).1) (write-Inv ks s t k d inv h fresh)
Step-Inv {ks} {s} d (releases k r q h e run) inv = release-Inv ks s k d inv h r q e run

Reach-Inv : {ks : List ℕ} {s : Tables} → Distinct ks → Reach ks s → Inv ks s
Reach-Inv {ks} d (start ready) = start-Inv ks ready
Reach-Inv d (next r st) = Step-Inv d st (Reach-Inv d r)

-- Those of the transactions in front of a deque, if any, that wait for no lock any more.
abbrev pub served : List ℕ → Tables → List LockRequest → List ℕ
served ks s [] = []
served ks s (x ∷ q) = if blocked x.txn ks (queue s) == 0 then x.txn ∷ [] else []

-- In every state that is reached by calls, on a set of keys, that lock what the transaction has
-- not asked for and release what it holds, the release of a lock by its holder succeeds and hands
-- the lock to the next in line, which becomes ready if and only if it now holds every lock that
-- it has asked for. Nobody else becomes ready.
pub release_wakes :
    {ks : List ℕ} {s : Tables} (k : ℕ) (r : LockRequest) (q : List LockRequest)
    → Distinct ks
    → Reach ks s
    → contains k ks ≡ true
    → s.lock_table k ≡ some (r ∷ q)
    → (s' : Tables) × (release r.txn k s ≡ some s')
      × ((j : ℕ) → queue s' j ≡ (if k == j then q else queue s j))
      × (s'.ready_txns ≡ s.ready_txns ++ served ks s' q)
unfolding serve_next
release_wakes {ks} {s} k r [] d reach h e =
    (set_queue k [] s, holder_release k s r [] e, λ j. ground arith, sym (append-nil s.ready_txns))
release_wakes {ks} {s} k r (x ∷ q) d reach h e = (
  handed ks s k d (Reach-Inv d reach) h x q,
  hand_over ks s k d (Reach-Inv d reach) h r x q e,
  λ j. ground arith,
  refl,
)
