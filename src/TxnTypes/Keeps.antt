-- ===== src/TxnTypes/Keeps.antt =====
-- What the `Run` methods leave as it is: the sets, and the time at which the reading began.
use database_concurrency_con.Prelude.{
  ℕ, ◌+◌, ◌%◌, ◌^◌, ◌≡◌, refl, List, [], ◌∷◌, arith, Outcome, done, died, ◌⊎◌, inl, inr,
}
use database_concurrency_con.Txn.{
  copy_txn_internals, Txn, TxnStatus, completed_c, completed_a, write,
}
use database_concurrency_con.Txn
use database_concurrency_con.TxnTypes.{
  Object, clone, new_of, new_expect, new_put, new_rmw, Logic, noop, expect, put, rmw, run,
  run_expect, run_put, run_rmw, read_keys, increment_keys,
}

-- What the logic of a transaction does not change.
abbrev pub Kept : Txn → Txn → Type 0
Kept t t' =
    (t'.readset ≡ t.readset) × (t'.writeset ≡ t.writeset) × (t'.occ_start_time ≡ t.occ_start_time)

pub Outcome-cases : {A : Type 0} (o : Outcome A) → (o ≡ died) ⊎ ((a : A) × (o ≡ done a))
Outcome-cases died = inl refl
Outcome-cases (done a) = inr (a, refl)

run_expect-keeps :
    (m : List (ℕ × ℕ)) (result : ℕ) (t t' : Txn) → run_expect m result t ≡ done t' → Kept t t'
unfolding run_expect
run_expect-keeps [] result t t' h = ground (arith, h)
run_expect-keeps ((k, v) ∷ m) result t t' h = elim (Outcome-cases (Txn.read k result t)) [
  | inl e ↦ ground (arith, rw e at h)
  | inr ((found, result'), e) ↦ ground (arith, rw e at h, run_expect-keeps m result' t t')
]

write-keeps : (k v : ℕ) (t t' : Txn) → write k v t ≡ done t' → Kept t t'
unfolding write
write-keeps k v t t' h = ground (arith, h)

run_put-keeps : (m : List (ℕ × ℕ)) (t t' : Txn) → run_put m t ≡ done t' → Kept t t'
unfolding run_put
run_put-keeps [] t t' h = ground (arith, h)
run_put-keeps ((k, v) ∷ m) t t' h = elim (Outcome-cases (write k v t)) [
  | inl e ↦ ground (arith, rw e at h)
  | inr (t₁, e) ↦ ground (arith, write-keeps k v t t₁ e, run_put-keeps m t₁ t' (rw e at h))
]

increment_keys-keeps : (ks : List ℕ) (t t' : Txn) → increment_keys ks t ≡ done t' → Kept t t'
unfolding increment_keys
increment_keys-keeps [] t t' h = ground (arith, h)
increment_keys-keeps (k ∷ ks) t t' h = elim (Outcome-cases (Txn.read k 0 t)) [
  | inl e ↦ ground (arith, rw e at h)
  | inr ((found, result), e) ↦ elim (Outcome-cases (write k ((result + 1) % 2 ^ 64) t)) [
    | inl e' ↦ ground (arith, rw (e, e') at h)
    | inr (t₁, e') ↦ ground (
      arith,
      write-keeps k ((result + 1) % 2 ^ 64) t t₁ e',
      increment_keys-keeps ks t₁ t' (rw (e, e') at h),
    )
  ]
]

run_rmw-keeps : (t t' : Txn) → run_rmw t ≡ done t' → Kept t t'
unfolding run_rmw
run_rmw-keeps t t' h = elim (Outcome-cases (read_keys t.readset 0 t)) [
  | inl e ↦ ground (arith, rw e at h)
  | inr (result, e) ↦ elim (Outcome-cases (increment_keys t.writeset t)) [
    | inl e' ↦ ground (arith, rw (e, e') at h)
    | inr (t₁, e') ↦ ground (arith, increment_keys-keeps t.writeset t t₁ e', rw (e, e') at h)
  ]
]

pub run-keeps : (logic : Logic) (t t' : Txn) → run logic t ≡ done t' → Kept t t'
unfolding run
run-keeps noop t t' h = ground (arith, h)
run-keeps (expect m) t t' h = run_expect-keeps m 0 t t' h
run-keeps (put m) t t' h = run_put-keeps m t t' h
run-keeps (rmw time) t t' h = run_rmw-keeps t t' h

-- What the logic ends with.
abbrev pub IsVote : TxnStatus → Type 0
IsVote status = (status ≡ completed_c) ⊎ (status ≡ completed_a)

run_expect-IsVote :
    (m : List (ℕ × ℕ)) (result : ℕ) (t t' : Txn)
    → run_expect m result t ≡ done t'
    → IsVote t'.status
unfolding run_expect
run_expect-IsVote [] result t t' h = inl (ground (arith, h))
run_expect-IsVote ((k, v) ∷ m) result t t' h = elim (Outcome-cases (Txn.read k result t)) [
  | inl e ↦ ground (arith, rw e at h)
  | inr ((found, result'), e) ↦ ground (arith, rw e at h, run_expect-IsVote m result' t t')
]

run_put-IsVote : (m : List (ℕ × ℕ)) (t t' : Txn) → run_put m t ≡ done t' → IsVote t'.status
unfolding run_put
run_put-IsVote [] t t' h = inl (ground (arith, h))
run_put-IsVote ((k, v) ∷ m) t t' h = elim (Outcome-cases (write k v t)) [
  | inl e ↦ ground (arith, rw e at h)
  | inr (t₁, e) ↦ run_put-IsVote m t₁ t' (rw e at h)
]

run_rmw-IsVote : (t t' : Txn) → run_rmw t ≡ done t' → IsVote t'.status
unfolding run_rmw
run_rmw-IsVote t t' h = elim (Outcome-cases (read_keys t.readset 0 t)) [
  | inl e ↦ ground (arith, rw e at h)
  | inr (result, e) ↦ elim (Outcome-cases (increment_keys t.writeset t)) [
    | inl e' ↦ ground (arith, rw (e, e') at h)
    | inr (t₁, e') ↦ inl (ground (arith, rw (e, e') at h))
  ]
]

pub run-IsVote : (logic : Logic) (t t' : Txn) → run logic t ≡ done t' → IsVote t'.status
unfolding run
run-IsVote noop t t' h = inl (ground (arith, h))
run-IsVote (expect m) t t' h = run_expect-IsVote m 0 t t' h
run-IsVote (put m) t t' h = run_put-IsVote m t t' h
run-IsVote (rmw time) t t' h = run_rmw-IsVote t t' h

clone_of :
    (logic : Logic) (t : Txn)
    → clone (record { logic = logic; txn = t }) ≡ record { logic = logic; txn = t }
unfolding clone new_of copy_txn_internals new_expect new_put new_rmw
clone_of noop t = refl
clone_of (expect m) t = refl
clone_of (put m) t = refl
clone_of (rmw time) t = refl

-- The clone of a transaction, of any class, has the same logic and the same members.
clone_same : (o : Object) → clone o ≡ o
clone_same o = clone_of o.logic o.txn
