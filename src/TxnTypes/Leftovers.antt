-- ===== src/TxnTypes/Leftovers.antt =====
-- What a `Run` method makes of reads and pending writes that an earlier run has left: nothing, if all
-- keys have been read again.
use database_concurrency_con.Prelude.{
  ℕ, ◌+◌, ◌%◌, ◌^◌, ◌≡◌, refl, ◌∙◌, sym, Bool, true, false, ◌||◌, List, [], ◌∷◌, arith, Outcome,
  done, inl, inr, not, subst, assign, Bool-cases, contains, find, find-assign, keys, ◌==◌,
}
use database_concurrency_con.Txn.{
  Txn, TxnStatus, incomplete, completed_c, completed_a, write, found_or,
}
use database_concurrency_con.Txn
use database_concurrency_con.TxnTypes.{
  Logic, noop, expect, put, rmw, run, run_expect, run_put, run_rmw, read_keys, increment_keys,
}
use database_concurrency_con.TxnTypes.Keeps.{Outcome-cases}

-- The keys that a run writes.
abbrev pub outputs : Logic → Txn → List ℕ
outputs noop t = []
outputs (expect m) t = []
outputs (put m) t = keys m
outputs (rmw time) t = t.writeset

-- Two transactions that have not run, with the same sets, the same reads for their keys, and pending
-- writes that differ only for the keys given.
pub record Alike (ks : List ℕ) (t t₀ : Txn) : Type 0 where
  pub begun : t.status ≡ incomplete
  pub status : t₀.status ≡ t.status
  pub readset : t₀.readset ≡ t.readset
  pub writeset : t₀.writeset ≡ t.writeset
  pub reads :
      (j : ℕ)
      → (contains j t.readset || contains j t.writeset) ≡ true
      → find j t₀.reads ≡ find j t.reads
  pub writes : (j : ℕ) → contains j ks ≡ false → find j t₀.writes ≡ find j t.writes

-- The one run ends as the other one.
abbrev EndsAlike : Outcome Txn → Txn → Type 0
EndsAlike r t' =
    (t₀' : Txn) × (r ≡ done t₀')
    × (t₀'.status ≡ t'.status)
    × ((j : ℕ) → find j t₀'.writes ≡ find j t'.writes)

read-Alike :
    (ks : List ℕ) (k value : ℕ) (t t₀ : Txn) (r : Bool × ℕ)
    → Alike ks t t₀
    → Txn.read k value t ≡ done r
    → Txn.read k value t₀ ≡ done r
unfolding Txn.read
read-Alike ks k value t t₀ r a e =
    ground (arith, a.begun, a.status, a.readset, a.writeset, a.reads k, e)

abbrev written : ℕ → ℕ → Txn → Txn
written k v t = record t { writes = assign k v t.writes; reads = assign k v t.reads }

write-written :
    (k v : ℕ) (t t' : Txn)
    → t.status ≡ incomplete
    → write k v t ≡ done t'
    → (contains k t.writeset ≡ true) × (written k v t ≡ t')
unfolding write
write-written k v t t' begun e = (ground (arith, begun, e), ground (arith, begun, e))

written-Alike :
    (ks : List ℕ) (k v : ℕ) (t t₀ : Txn)
    → Alike (k ∷ ks) t t₀
    → Alike ks (written k v t) (written k v t₀)
written-Alike ks k v t t₀ a = record {
  begun = a.begun;
  status = a.status;
  readset = a.readset;
  writeset = a.writeset;
  reads =
      λ j has. find-assign j k v t₀.reads ∙ rw (a.reads j has) (sym (find-assign j k v t.reads));
  writes = λ j out.
      ground (arith, out, find-assign j k v t₀.writes, find-assign j k v t.writes, a.writes j);
}

write-Alike :
    (ks : List ℕ) (k v : ℕ) (t t' t₀ : Txn)
    → Alike (k ∷ ks) t t₀
    → write k v t ≡ done t'
    → (write k v t₀ ≡ done (written k v t₀)) × Alike ks t' (written k v t₀)
unfolding write
write-Alike ks k v t t' t₀ a e =
    let (has, e') = write-written k v t t' a.begun e in
    (
      ground (arith, has, a.begun, a.status, a.writeset),
      subst (λ x. Alike ks x (written k v t₀)) e' (written-Alike ks k v t t₀ a),
    )

run_put-EndsAlike :
    (m : List (ℕ × ℕ)) (t t' t₀ : Txn)
    → Alike (keys m) t t₀
    → run_put m t ≡ done t'
    → EndsAlike (run_put m t₀) t'
unfolding run_put
run_put-EndsAlike [] t t' t₀ a e =
    (_, refl, ground (arith, e), λ j. a.writes j refl ∙ ground (arith, e))
run_put-EndsAlike ((k, v) ∷ m) t t' t₀ a e = elim (Outcome-cases (write k v t)) [
  | inl bad ↦ ground (arith, rw bad at e)
  | inr (t₁, wrote) ↦
      let (wrote₀, a') = write-Alike (keys m) k v t t₁ t₀ a wrote in
      rw wrote₀ (run_put-EndsAlike m t₁ t' (written k v t₀) a' (rw wrote at e))
]

run_expect-EndsAlike :
    (m : List (ℕ × ℕ)) (result : ℕ) (t t' t₀ : Txn)
    → Alike [] t t₀
    → run_expect m result t ≡ done t'
    → EndsAlike (run_expect m result t₀) t'
unfolding run_expect
run_expect-EndsAlike [] result t t' t₀ a e =
    (_, refl, ground (arith, e), λ j. a.writes j refl ∙ ground (arith, e))
run_expect-EndsAlike ((k, v) ∷ m) result t t' t₀ a e = elim (Outcome-cases (Txn.read k result t)) [
  | inl bad ↦ ground (arith, rw bad at e)
  | inr ((found, result'), got) ↦
      let got₀ = read-Alike [] k result t t₀ (found, result') a got in
      elim (Bool-cases (not found || not (result' == v))) [
        | inl differs ↦
            rw (got₀, differs)
              (
                _,
                refl,
                ground (arith, rw (got, differs) at e),
                λ j. a.writes j refl ∙ ground (arith, rw (got, differs) at e),
              )
        | inr same ↦
            rw (got₀, same) (run_expect-EndsAlike m result' t t' t₀ a (rw (got, same) at e))
      ]
]

increment_keys-Alike :
    (ks : List ℕ) (t t' t₀ : Txn)
    → Alike ks t t₀
    → increment_keys ks t ≡ done t'
    → (t₀' : Txn) × (increment_keys ks t₀ ≡ done t₀') × Alike [] t' t₀'
unfolding increment_keys
increment_keys-Alike [] t t' t₀ a e = (t₀, refl, subst (λ x. Alike [] x t₀) (ground (arith, e)) a)
increment_keys-Alike (k ∷ ks) t t' t₀ a e = elim (Outcome-cases (Txn.read k 0 t)) [
  | inl bad ↦ ground (arith, rw bad at e)
  | inr ((found, result), got) ↦ elim (Outcome-cases (write k ((result + 1) % 2 ^ 64) t)) [
    | inl bad ↦ ground (arith, rw (got, bad) at e)
    | inr (t₁, wrote) ↦
        let v = (result + 1) % 2 ^ 64 in
        let got₀ = read-Alike (k ∷ ks) k 0 t t₀ (found, result) a got in
        let (wrote₀, a') = write-Alike ks k v t t₁ t₀ a wrote in
        rw (got₀, wrote₀) (increment_keys-Alike ks t₁ t' (written k v t₀) a' (rw (got, wrote) at e))
  ]
]

read_keys-Alike :
    (all ks : List ℕ) (result v : ℕ) (t t₀ : Txn)
    → Alike all t t₀
    → read_keys ks result t ≡ done v
    → read_keys ks result t₀ ≡ done v
unfolding read_keys
read_keys-Alike all [] result v t t₀ a e = ground (arith, e)
read_keys-Alike all (k ∷ ks) result v t t₀ a e = elim (Outcome-cases (Txn.read k result t)) [
  | inl bad ↦ ground (arith, rw bad at e)
  | inr ((found, result'), got) ↦
      rw (read-Alike all k result t t₀ (found, result') a got)
        (read_keys-Alike all ks result' v t t₀ a (rw got at e))
]

run_rmw-EndsAlike :
    (t t' t₀ : Txn) → Alike t.writeset t t₀ → run_rmw t ≡ done t' → EndsAlike (run_rmw t₀) t'
unfolding run_rmw
run_rmw-EndsAlike t t' t₀ a e = elim (Outcome-cases (read_keys t.readset 0 t)) [
  | inl bad ↦ ground (arith, rw bad at e)
  | inr (v, got) ↦ elim (Outcome-cases (increment_keys t.writeset t)) [
    | inl bad ↦ ground (arith, rw (got, bad) at e)
    | inr (t₁, wrote) ↦
        let (t₂, wrote₀, a') = increment_keys-Alike t.writeset t t₁ t₀ a wrote in
        let got₀ = read_keys-Alike t.writeset t.readset 0 v t t₀ a got in
        rw
          (
            subst (λ ks. read_keys ks 0 t₀ ≡ done v) (sym a.readset) got₀,
            subst (λ ks. increment_keys ks t₀ ≡ done t₂) (sym a.writeset) wrote₀,
          )
          (
            _,
            refl,
            ground (arith, rw (got, wrote) at e),
            λ j. a'.writes j refl ∙ ground (arith, rw (got, wrote) at e),
          )
  ]
]

-- A run that starts alike, but for the pending writes of the keys that it writes, ends alike.
pub run-EndsAlike :
    (logic : Logic) (t t' t₀ : Txn)
    → Alike (outputs logic t) t t₀
    → run logic t ≡ done t'
    → EndsAlike (run logic t₀) t'
unfolding run
run-EndsAlike noop t t' t₀ a e =
    (_, refl, ground (arith, e), λ j. a.writes j refl ∙ ground (arith, e))
run-EndsAlike (expect m) t t' t₀ a e = run_expect-EndsAlike m 0 t t' t₀ a e
run-EndsAlike (put m) t t' t₀ a e = run_put-EndsAlike m t t' t₀ a e
run-EndsAlike (rmw time) t t' t₀ a e = run_rmw-EndsAlike t t' t₀ a e
