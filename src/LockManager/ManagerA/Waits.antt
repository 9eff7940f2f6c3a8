-- ===== src/LockManager/ManagerA/Waits.antt =====
-- LockManagerA: the counts of `txn_waits_` are exact while transactions lock keys that they have
-- not asked for, and release keys that they hold.
use database_concurrency_con.Prelude.{
  ℕ, zero, suc, ◌+◌, ◌≤◌, ◌≡◌, ◌≢◌, refl, ap, ◌∙◌, sym, true, false, List, [], ◌∷◌, ◌++◌, Option,
  none, some, get_or, ℤ, pos, arith, contains, occurrences, occurrences-append, Distinct,
  map-append, if◌then◌else◌, ◌==◌, ==→≡, update, succ, Bool-cases, inl, inr,
}
use database_concurrency_con.LockManager.Requests.{
  Tables, LockRequest, request, exclusive, queue, txns_of, no_locks,
}
use database_concurrency_con.LockManager.Granted.{is_empty}
use database_concurrency_con.LockManager.ManagerA.{write_lock, read_lock, release}
use database_concurrency_con.LockManager.ManagerA.Locks.{write_lock_lem}

-- The requests of `t` that are not in front.
abbrev pub behind : ℕ → List LockRequest → ℕ
behind t [] = 0
behind t (r ∷ q) = occurrences t (txns_of q)

-- The number of the keys' deques in which `t` waits.
pub blocked : ℕ → List ℕ → (ℕ → List LockRequest) → ℕ
blocked t [] f = 0
blocked t (k ∷ ks) f = behind t (f k) + blocked t ks f

-- What `txn_waits_` is to hold for so many waits.
abbrev pub entry : ℕ → Option ℤ
entry zero = none
entry (suc n) = some (pos (suc n))

blocked_same :
    (t k : ℕ) (ks : List ℕ) (f g : ℕ → List LockRequest)
    → contains k ks ≡ false
    → ((j : ℕ) → k ≢ j → g j ≡ f j)
    → blocked t ks g ≡ blocked t ks f
unfolding blocked
blocked_same t k [] f g h same = refl
blocked_same t k (j ∷ ks) f g h same =
    ground
      (arith, ap (behind t) (same j (ground arith)), blocked_same t k ks f g (ground arith) same)

pub blocked-update :
    (t k : ℕ) (ks : List ℕ) (f g : ℕ → List LockRequest)
    → Distinct ks
    → contains k ks ≡ true
    → ((j : ℕ) → k ≢ j → g j ≡ f j)
    → blocked t ks g + behind t (f k) ≡ blocked t ks f + behind t (g k)
unfolding blocked
blocked-update t k [] f g d h same = cc
blocked-update t k (j ∷ ks) f g d h same = elim (Bool-cases (k == j)) [
  | inl here ↦
      let e = ==→≡ k j here in
      rw e (ground (arith, blocked_same t j ks f g d.0 (λ i n. same i (rw e n))))
  | inr there ↦ ground (
    arith,
    ap (behind t) (same j (ground arith)),
    blocked-update t k ks f g d.1 (ground arith) same,
  )
]

occurrences_absent : (t : ℕ) (ts : List ℕ) → contains t ts ≡ false → occurrences t ts ≡ 0
occurrences_absent t [] h = refl
occurrences_absent t (x ∷ ts) h = ground (arith, occurrences_absent t ts)

behind-append :
    (t : ℕ) (r : LockRequest) (q : List LockRequest)
    → behind t (q ++ r ∷ []) ≡ behind t q + (if is_empty q then 0 else occurrences t (r.txn ∷ []))
behind-append t r [] = refl
behind-append t r (x ∷ q) =
    ap (occurrences t) (map-append (λ (r : LockRequest). r.txn) q (r ∷ []))
    ∙ occurrences-append t (txns_of q) (r.txn ∷ [])

-- Every transaction waits for as many locks as its entry says, and stands in no deque twice.
pub record Inv (ks : List ℕ) (s : Tables) : Type 0 where
  pub exact : (t : ℕ) → s.txn_waits t ≡ entry (blocked t ks (queue s))
  pub once : (k t : ℕ) → occurrences t (txns_of (queue s k)) ≤ 1

-- A call that keeps to the protocol, on one of the keys `ks`.
pub data Step (ks : List ℕ) (s : Tables) : Tables → Type 0 where
  writes :
      (t k : ℕ)
      → contains k ks ≡ true
      → contains t (txns_of (queue s k)) ≡ false
      → Step ks s (write_lock t k s).1
  reads :
      (t k : ℕ)
      → contains k ks ≡ true
      → contains t (txns_of (queue s k)) ≡ false
      → Step ks s (read_lock t k s).1
  releases :
      (k : ℕ) {s' : Tables} (r : LockRequest) (q : List LockRequest)
      → contains k ks ≡ true
      → s.lock_table k ≡ some (r ∷ q)
      → release r.txn k s ≡ some s'
      → Step ks s s'

pub data Reach (ks : List ℕ) : Tables → Type 0 where
  start : (ready : List ℕ) → Reach ks (no_locks ready)
  next : {s s' : Tables} → Reach ks s → Step ks s s' → Reach ks s'

start_exact : (t : ℕ) (ks : List ℕ) → blocked t ks (λ _. []) ≡ 0
unfolding blocked
start_exact t [] = refl
start_exact t (k ∷ ks) = omega (arith, start_exact t ks)

pub start-Inv : (ks ready : List ℕ) → Inv ks (no_locks ready)
start-Inv ks ready = record {
  exact = λ t. ap entry (sym (start_exact t ks));
  once = λ k t. omega arith;
}

-- A call that changes one deque keeps the invariant if the entries change with it.
pub Inv-change :
    (ks : List ℕ) (s s' : Tables) (k : ℕ)
    → Distinct ks
    → contains k ks ≡ true
    → Inv ks s
    → ((j : ℕ) → k ≢ j → queue s' j ≡ queue s j)
    → ((o : ℕ) → occurrences o (txns_of (queue s' k)) ≤ 1)
    → ((o n : ℕ)
        → n + behind o (queue s k) ≡ blocked o ks (queue s) + behind o (queue s' k)
        → s'.txn_waits o ≡ entry n)
    → Inv ks s'
Inv-change ks s s' k d h inv same few exact = record {
  exact =
      λ o. exact o (blocked o ks (queue s')) (blocked-update o k ks (queue s) (queue s') d h same);
  once = λ j o. elim (Bool-cases (k == j)) [
    | inl here ↦ rw (← ==→≡ k j here) (few o)
    | inr there ↦ rw (same j (ground arith)) (inv.once j o)
  ];
}

succ-entry : (n : ℕ) → some (succ (get_or (entry n) (pos 0))) ≡ entry (suc n)
succ-entry zero = refl
succ-entry (suc n) = refl

write_exact :
    (t o b n : ℕ) (q : List LockRequest) (w : ℕ → Option ℤ)
    → w o ≡ entry b
    → n + behind o q ≡ b + behind o (q ++ request exclusive t ∷ [])
    → (if is_empty q then w else update w t (some (succ (get_or (w t) (pos 0))))) o ≡ entry n
write_exact t o b n [] w e sum = e ∙ ap entry (omega arith)
write_exact t o b n (x ∷ q) w e sum = elim (Bool-cases (t == o)) [
  | inl here ↦
      ground (arith, succ-entry b, behind-append o (request exclusive t) (x ∷ q), ==→≡ t o here)
  | inr there ↦
      let same : b ≡ n = ground (arith, behind-append o (request exclusive t) (x ∷ q)) in
      ground (arith, ap entry same)
]

once-append :
    (t o : ℕ) (q : List LockRequest)
    → occurrences o (txns_of q) ≤ 1
    → contains t (txns_of q) ≡ false
    → occurrences o (txns_of (q ++ request exclusive t ∷ [])) ≤ 1
once-append t o q h fresh =
    rw (map-append (λ (r : LockRequest). r.txn) q (request exclusive t ∷ []))
      (ground (arith, occurrences-append o (txns_of q) (t ∷ []), occurrences_absent t (txns_of q)))

module _ (ks : List ℕ) (s : Tables) (t k : ℕ) (d : Distinct ks) (inv : Inv ks s)
    (h : contains k ks ≡ true) where
  pub write-Inv : contains t (txns_of (queue s k)) ≡ false → Inv ks (write_lock t k s).1
  write-Inv fresh = rw ((write_lock_lem t k s).0) (
      Inv-change ks s _ k d h inv (λ j n. ground arith)
        (λ o. ground (arith, once-append t o (queue s k) (inv.once k o) fresh))
        (λ o n e. ground (
          arith,
          write_exact t o (blocked o ks (queue s)) n (queue s k) s.txn_waits (inv.exact o),
        )))
