-- ===== src/LockManager/ManagerB/Advances.antt =====
-- LockManagerB: the last loop of `Release`, in which the owners of a key advance.
use database_concurrency_con.Prelude.{
  ℕ, ◌≡◌, refl, ap, ◌∙◌, sym, Bool, false, List, [], ◌∷◌, ◌++◌, Option, none, some, ℤ, arith,
  contains, Distinct, if◌then◌else◌, update, update_same, pred, is_zero, Option-cases, inl, inr,
  append-nil, append_assoc,
}
use database_concurrency_con.LockManager.ManagerB.{ManagerB, advance, advance_all}

-- Whether an entry of `txn_waits_` is for the last lock that is missing.
abbrev is_last : Option ℤ → Bool
is_last none = false
is_last (some n) = is_zero (pred n)

-- An entry with one lock less to wait for.
abbrev pub less_wait : Option ℤ → Option ℤ
less_wait none = none
less_wait (some n) = if is_zero (pred n) then none else some (pred n)

-- Those of the transactions that wait for one lock only.
unfoldable pub last_waits : (ℕ → Option ℤ) → List ℕ → List ℕ
last_waits w [] = []
last_waits w (t ∷ ts) = let rest = last_waits w ts in if is_last (w t) then t ∷ rest else rest

last_waits-update :
    (w : ℕ → Option ℤ) (t : ℕ) (v : Option ℤ) (ts : List ℕ)
    → contains t ts ≡ false
    → last_waits (update w t v) ts ≡ last_waits w ts
unfolding last_waits
last_waits-update w t v [] h = refl
last_waits-update w t v (o ∷ ts) h = ground (arith, last_waits-update w t v ts)

advance_lem :
    (t : ℕ) (s : ManagerB)
    → advance t s ≡ record s {
      tables = record s.tables {
        ready_txns = s.ready_txns ++ last_waits s.txn_waits (t ∷ []);
        txn_waits = update s.txn_waits t (less_wait (s.txn_waits t));
      };
    }
unfolding advance last_waits
advance_lem t s = elim (Option-cases (s.txn_waits t)) [
  | inl e ↦
      rw (e, advance)
        (λ i. record s {
          tables = record s.tables {
            ready_txns = sym (append-nil s.ready_txns) i;
            txn_waits = (sym (update_same s.txn_waits t) ∙ ap (update s.txn_waits t) e) i;
          };
        })
  | inr (n, e) ↦ rw (e, advance) (ground (arith, append-nil s.ready_txns))
]

-- The owners advance together: those that waited for this lock only become ready, in order, and
-- every owner that waits has one lock less to wait for.
pub advance_all_lem :
    (ts : List ℕ) (s : ManagerB)
    → Distinct ts
    → ((advance_all ts s).ready_txns ≡ s.ready_txns ++ last_waits s.txn_waits ts)
      × ((o : ℕ)
          → (advance_all ts s).txn_waits o
            ≡ (if contains o ts then less_wait (s.txn_waits o) else s.txn_waits o))
      × ((advance_all ts s).lock_table ≡ s.lock_table)
      × ((advance_all ts s).num_exclusive ≡ s.num_exclusive)
unfolding advance_all last_waits
advance_all_lem [] s d = (rw append-nil, λ o. refl, refl, refl)
advance_all_lem (t ∷ ts) s d =
    let ih = advance_all_lem ts (advance t s) d.1 in
    let ih' = rw (advance_lem t s) at ih in
    rw (advance_lem t s, advance_all)
      (
        ih'.0
            ∙ ground (
              arith,
              last_waits-update s.txn_waits t (less_wait (s.txn_waits t)) ts d.0,
              append_assoc s.ready_txns (last_waits s.txn_waits (t ∷ []))
                  (last_waits s.txn_waits ts),
            ),
        λ o. ih'.1 o ∙ ground (arith, d.0),
        ih'.2,
        ih'.3,
      )
