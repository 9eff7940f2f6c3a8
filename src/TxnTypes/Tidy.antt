-- ===== src/TxnTypes/Tidy.antt =====
-- Which pending writes a `Run` method can leave behind: those of the keys that it writes.
use database_concurrency_con.Prelude.{
  ℕ, ◌+◌, ◌%◌, ◌^◌, ◌≡◌, refl, ◌∙◌, false, not, ◌||◌, List, [], ◌∷◌, none, arith, contains, find,
  find-assign, keys, done, inl, inr, Bool-cases, ◌==◌,
}
use database_concurrency_con.Txn.{Txn, incomplete, completed_c, completed_a, write}
use database_concurrency_con.Txn
use database_concurrency_con.TxnTypes.{
  Logic, noop, expect, put, rmw, run, run_expect, run_put, run_rmw, read_keys, increment_keys,
}
use database_concurrency_con.TxnTypes.Keeps.{Outcome-cases, run-keeps}
use database_concurrency_con.TxnTypes.Leftovers.{outputs}

-- The pending writes are of keys that the run writes.
abbrev pub Tidy : Logic → Txn → Type 0
Tidy logic t = (j : ℕ) → contains j (outputs logic t) ≡ false → find j t.writes ≡ none

-- The pending writes of other keys than these are the same.
abbrev Frames : List ℕ → Txn → Txn → Type 0
Frames ks t t' = (j : ℕ) → contains j ks ≡ false → find j t'.writes ≡ find j t.writes

write-Frames : (k v : ℕ) (t t' : Txn) → write k v t ≡ done t' → Frames (k ∷ []) t t'
unfolding write
write-Frames k v t t' h j out = ground (arith, h, out, find-assign j k v t.writes)

run_put-Frames : (m : List (ℕ × ℕ)) (t t' : Txn) → run_put m t ≡ done t' → Frames (keys m) t t'
unfolding run_put
run_put-Frames [] t t' h j out = ground (arith, h)
run_put-Frames ((k, v) ∷ m) t t' h j out = elim (Outcome-cases (write k v t)) [
  | inl e ↦ ground (arith, rw e at h)
  | inr (t₁, e) ↦
      run_put-Frames m t₁ t' (rw e at h) j (ground (arith, out))
      ∙ write-Frames k v t t₁ e j (ground (arith, out))
]

run_expect-Frames :
    (m : List (ℕ × ℕ)) (result : ℕ) (t t' : Txn) → run_expect m result t ≡ done t' → Frames [] t t'
unfolding run_expect
run_expect-Frames [] result t t' h j out = ground (arith, h)
run_expect-Frames ((k, v) ∷ m) result t t' h j out = elim (Outcome-cases (Txn.read k result t)) [
  | inl e ↦ ground (arith, rw e at h)
  | inr ((found, result'), e) ↦ elim (Bool-cases (not found || not (result' == v))) [
    | inl stop ↦ ground (arith, rw (e, stop) at h)
    | inr go ↦ run_expect-Frames m result' t t' (rw (e, go) at h) j out
  ]
]

increment_keys-Frames : (ks : List ℕ) (t t' : Txn) → increment_keys ks t ≡ done t' → Frames ks t t'
unfolding increment_keys
increment_keys-Frames [] t t' h j out = ground (arith, h)
increment_keys-Frames (k ∷ ks) t t' h j out = elim (Outcome-cases (Txn.read k 0 t)) [
  | inl e ↦ ground (arith, rw e at h)
  | inr ((found, result), e) ↦ elim (Outcome-cases (write k ((result + 1) % 2 ^ 64) t)) [
    | inl e' ↦ ground (arith, rw (e, e') at h)
    | inr (t₁, e') ↦
        increment_keys-Frames ks t₁ t' (rw (e, e') at h) j (ground (arith, out))
        ∙ write-Frames k ((result + 1) % 2 ^ 64) t t₁ e' j (ground (arith, out))
  ]
]

run_rmw-Frames : (t t' : Txn) → run_rmw t ≡ done t' → Frames t.writeset t t'
unfolding run_rmw
run_rmw-Frames t t' h j out = elim (Outcome-cases (read_keys t.readset 0 t)) [
  | inl e ↦ ground (arith, rw e at h)
  | inr (result, e) ↦ elim (Outcome-cases (increment_keys t.writeset t)) [
    | inl e' ↦ ground (arith, rw (e, e') at h)
    | inr (t₁, e') ↦ ground (arith, increment_keys-Frames t.writeset t t₁ e' j out, rw (e, e') at h)
  ]
]

run-Frames : (logic : Logic) (t t' : Txn) → run logic t ≡ done t' → Frames (outputs logic t) t t'
unfolding run
run-Frames noop t t' h j out = ground (arith, h)
run-Frames (expect m) t t' h j out = run_expect-Frames m 0 t t' h j out
run-Frames (put m) t t' h j out = run_put-Frames m t t' h j out
run-Frames (rmw time) t t' h j out = run_rmw-Frames t t' h j out

pub outputs-writeset :
    (logic : Logic) (t t' : Txn) → t'.writeset ≡ t.writeset → outputs logic t' ≡ outputs logic t
outputs-writeset noop t t' e = refl
outputs-writeset (expect m) t t' e = refl
outputs-writeset (put m) t t' e = refl
outputs-writeset (rmw time) t t' e = e

pub Tidy-same :
    (logic : Logic) (t t' : Txn)
    → t'.writeset ≡ t.writeset
    → t'.writes ≡ t.writes
    → Tidy logic t
    → Tidy logic t'
Tidy-same logic t t' e e' tidy j out = rw e' (tidy j (rw (outputs-writeset logic t t' e) at out))

pub unwritten-Tidy : (logic : Logic) (t : Txn) → t.writes ≡ [] → Tidy logic t
unfolding find
unwritten-Tidy logic t e j out = rw e refl

pub run-Tidy : (logic : Logic) (t t' : Txn) → run logic t ≡ done t' → Tidy logic t → Tidy logic t'
run-Tidy logic t t' h tidy j out =
    let (_, same, _) = run-keeps logic t t' h in
    let out' = rw (outputs-writeset logic t t' same) at out in
    run-Frames logic t t' h j out' ∙ tidy j out'
