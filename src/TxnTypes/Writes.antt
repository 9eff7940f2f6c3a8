-- ===== src/TxnTypes/Writes.antt =====
-- What the `Run` methods write: keys of the write set only.
use database_concurrency_con.Prelude.{
  ℕ, ◌+◌, ◌%◌, ◌^◌, ◌≡◌, false, ◌&&◌, List, [], ◌∷◌, none, arith, contains, find, find-assign, done,
  inl, inr, Bool-cases, ◌==◌, ==→≡,
}
use database_concurrency_con.Txn.{Txn, TxnStatus, completed_c, completed_a, write}
use database_concurrency_con.Txn
use database_concurrency_con.TxnTypes.{
  Logic, noop, expect, put, rmw, run, run_expect, run_put, run_rmw, read_keys, increment_keys,
}
use database_concurrency_con.TxnTypes.Keeps.{Outcome-cases}

-- A key outside the write set has not been written.
abbrev pub WritesWithin : Txn → Type 0
WritesWithin t = (k : ℕ) → contains k t.writeset ≡ false → find k t.writes ≡ none

abbrev Keeps : Txn → Txn → Type 0
Keeps t t' = (t'.writeset ≡ t.writeset) × (WritesWithin t → WritesWithin t')

write-Keeps : (k v : ℕ) (t t' : Txn) → write k v t ≡ done t' → Keeps t t'
unfolding write
write-Keeps k v t t' h = (
  ground (arith, h),
  λ w j out. ground (arith, h, w j, out, find-assign j k v t.writes, ==→≡ j k),
)

run_put-Keeps : (m : List (ℕ × ℕ)) (t t' : Txn) → run_put m t ≡ done t' → Keeps t t'
unfolding run_put
run_put-Keeps [] t t' h = (ground (arith, h), λ w j out. ground (arith, h, w j, out))
run_put-Keeps ((k, v) ∷ m) t t' h = elim (Outcome-cases (write k v t)) [
  | inl e ↦ ground (arith, rw e at h)
  | inr (t₁, e) ↦
      let (same, keeps) = write-Keeps k v t t₁ e in
      let (same', keeps') = run_put-Keeps m t₁ t' (rw e at h) in
      (ground (arith, same, same'), λ w. keeps' (keeps w))
]

run_expect-Keeps :
    (m : List (ℕ × ℕ)) (result : ℕ) (t t' : Txn) → run_expect m result t ≡ done t' → Keeps t t'
unfolding run_expect
run_expect-Keeps [] result t t' h = (ground (arith, h), λ w j out. ground (arith, h, w j, out))
run_expect-Keeps ((k, v) ∷ m) result t t' h = elim (Outcome-cases (Txn.read k result t)) [
  | inl e ↦ ground (arith, rw e at h)
  | inr ((found, result'), e) ↦ elim (Bool-cases (found && result' == v)) [
    | inl go ↦ run_expect-Keeps m result' t t' (ground (arith, rw e at h, go))
    | inr stop ↦
        (ground (arith, rw e at h, stop), λ w j out. ground (arith, rw e at h, stop, w j, out))
  ]
]

increment_keys-Keeps : (ks : List ℕ) (t t' : Txn) → increment_keys ks t ≡ done t' → Keeps t t'
unfolding increment_keys
increment_keys-Keeps [] t t' h = (ground (arith, h), λ w j out. ground (arith, h, w j, out))
increment_keys-Keeps (k ∷ ks) t t' h = elim (Outcome-cases (Txn.read k 0 t)) [
  | inl e ↦ ground (arith, rw e at h)
  | inr ((found, result), e) ↦ elim (Outcome-cases (write k ((result + 1) % 2 ^ 64) t)) [
    | inl e' ↦ ground (arith, rw (e, e') at h)
    | inr (t₁, e') ↦
        let (same, keeps) = write-Keeps k ((result + 1) % 2 ^ 64) t t₁ e' in
        let (same', keeps') = increment_keys-Keeps ks t₁ t' (rw (e, e') at h) in
        (ground (arith, same, same'), λ w. keeps' (keeps w))
  ]
]

run_rmw-Keeps : (t t' : Txn) → run_rmw t ≡ done t' → Keeps t t'
unfolding run_rmw
run_rmw-Keeps t t' h = elim (Outcome-cases (read_keys t.readset 0 t)) [
  | inl e ↦ ground (arith, rw e at h)
  | inr (result, e) ↦ elim (Outcome-cases (increment_keys t.writeset t)) [
    | inl e' ↦ ground (arith, rw (e, e') at h)
    | inr (t₁, e') ↦
        let (same, keeps) = increment_keys-Keeps t.writeset t t₁ e' in
        (
          ground (arith, same, rw (e, e') at h),
          λ w j out. ground (arith, keeps w j, out, rw (e, e') at h),
        )
  ]
]

pub run-Keeps : (logic : Logic) (t t' : Txn) → run logic t ≡ done t' → Keeps t t'
unfolding run
run-Keeps noop t t' h = (ground (arith, h), λ w j out. ground (arith, h, w j, out))
run-Keeps (expect m) t t' h = run_expect-Keeps m 0 t t' h
run-Keeps (put m) t t' h = run_put-Keeps m t t' h
run-Keeps (rmw time) t t' h = run_rmw-Keeps t t' h
