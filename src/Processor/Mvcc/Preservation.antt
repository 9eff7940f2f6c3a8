-- ===== src/Processor/Mvcc/Preservation.antt =====
-- The multiversion scheduler: the clients, the scheduler and the threads keep the invariant.
use database_concurrency_con.Prelude.{
  ℕ, ◌≡◌, refl, sym, List, ◌∷◌, arith, Bool-cases, inl, inr, ◌==◌, ==→≡, ==_self,
}
use database_concurrency_con.Places.{Holds-pop}
use database_concurrency_con.Processor.Mvcc.System.{
  requested, queued, System, move, Acts, begins, locks_read, reads, unlocks_read, runs, dies,
  locks_write, checks, unlocks_write, commits, restarts, Step, submits, hands, acts,
}
use database_concurrency_con.Processor.Mvcc.Stages.{keep-IsOwned}
use database_concurrency_con.Processor.Mvcc.Invariant.{
  Inv, locks_read-Inv, unlocks_read-Inv, reads-Inv, runs-Inv, locks_write-Inv, checks-Inv,
  unlocks_write-Inv, begins-Inv, dies-Inv, commits-Inv, restarts-Inv, submits-Inv,
}

hands-Inv :
    (t : ℕ) (q : List ℕ) (s : System)
    → s.txn_requests ≡ t ∷ q
    → Inv s
    → Inv (move t queued (record s.shared { txn_requests = q }) s.storage s)
hands-Inv t q s e inv =
    let asked = rw e at inv.asked in
    let here = asked.1 t (ground (arith, ==_self t)) in
    record {
      owned = keep-IsOwned s.storage.mutexes s.stage t queued (λ j. rw here refl) inv.owned;
      well = λ j. elim (Bool-cases (t == j)) [
        | inl e' ↦ rw (e', sym (==→≡ t j e')) (rw here at (inv.well t))
        | inr e' ↦ rw e' (inv.well j)
      ];
      asked = Holds-pop requested q s.stage t queued asked;
    }

Acts-keeps : {t : ℕ} {s s' : System} → Acts t s s' → Inv s → Inv s'
Acts-keeps {t} {s} (begins e) inv = begins-Inv t s inv e
Acts-keeps {t} {s} (locks_read k ks st e locks) inv = locks_read-Inv t s inv k ks st e locks
Acts-keeps {t} {s} (reads k ks junk e) inv = reads-Inv t s inv k ks junk e
Acts-keeps {t} {s} (unlocks_read k ks st e unlocks) inv = unlocks_read-Inv t s inv k ks st e unlocks
Acts-keeps {t} {s} (runs ran e ends) inv = runs-Inv t s inv ran e ends
Acts-keeps {t} {s} (dies e ends) inv = dies-Inv t s inv e
Acts-keeps {t} {s} (locks_write held k ks st e locks) inv =
    locks_write-Inv t s inv held k ks st e locks
Acts-keeps {t} {s} (checks held e) inv = checks-Inv t s inv held _ e
Acts-keeps {t} {s} (unlocks_write verified k ks st e unlocks) inv =
    unlocks_write-Inv t s inv verified k ks st e unlocks
Acts-keeps {t} {s} (commits e) inv = commits-Inv t s inv e
Acts-keeps {t} {s} (restarts e) inv = restarts-Inv t s inv e

pub Step-keeps : {s s' : System} → Step s s' → Inv s → Inv s'
Step-keeps {s} (submits t e good) inv = submits-Inv t s inv e good
Step-keeps {s} (hands t q e) inv = hands-Inv t q s e inv
Step-keeps (acts t a) inv = Acts-keeps a inv
