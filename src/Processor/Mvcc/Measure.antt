-- ===== src/Processor/Mvcc/Measure.antt =====
-- The multiversion scheduler: how many steps an execution of a transaction has left.
use database_concurrency_con.Prelude.{
  ℕ, suc, ◌+◌, ◌*◌, ◌<◌, ◌≤◌, ◌≡◌, refl, sym, false, length, arith, ◌==◌, ==_self,
}
use database_concurrency_con.Txn.{Txn}
use database_concurrency_con.TxnTypes.Keeps.{run-keeps}
use database_concurrency_con.MvccStorage.{MvccStorage, read}
use database_concurrency_con.Atomic.Queue.{push}
use database_concurrency_con.Processor.Objects.{Shared, txn_at, set_txn, new_txn_request}
use database_concurrency_con.Processor.Workers.{keys_of}
use database_concurrency_con.Processor.Mvcc.{mvcc_commit, mvcc_restart}
use database_concurrency_con.Processor.Mvcc.System.{
  Stage, outside, requested, queued, dead, fetching, reading, leaving, locking, releasing, System,
  move, noted, Acts, begins, locks_read, reads, unlocks_read, runs, dies, locks_write, checks,
  unlocks_write, commits, restarts,
}

-- The steps that a thread makes at most until the transaction is finished, handed back or dead: three
-- for each key to read, and a lock and a release for each key to write.
abbrev steps_left : Stage → Txn → ℕ
steps_left outside txn = 0
steps_left requested txn = 0
steps_left dead txn = 0
steps_left queued txn = 3 * length (keys_of txn) + 2 * length txn.writeset + 4
steps_left (fetching ks) txn = 3 * length ks + 2 * length txn.writeset + 3
steps_left (reading k ks) txn = 3 * length ks + 2 * length txn.writeset + 5
steps_left (leaving k ks) txn = 3 * length ks + 2 * length txn.writeset + 4
steps_left (locking held todo) txn = length todo + length txn.writeset + 2
steps_left (releasing verified ks) txn = length ks + 1

abbrev pub steps_at : ℕ → System → ℕ
steps_at t s = steps_left (s.stage t) (txn_at s.shared t)

Acts-less : {t : ℕ} {s s' : System} → Acts t s s' → steps_at t s' < steps_at t s
unfolding mvcc_commit mvcc_restart new_txn_request push
Acts-less {t} {s} (begins e) = rw (e, ==_self t) (ground arith)
Acts-less {t} {s} (locks_read k ks st e locks) = rw (e, ==_self t) (ground arith)
Acts-less {t} {s} (reads k ks junk e) = rw (e, txn_at, ==_self t) (ground arith)
Acts-less {t} {s} (unlocks_read k ks st e unlocks) = rw (e, ==_self t) (ground arith)
Acts-less {t} {s} (runs ran e ends) =
    let same = (run-keeps (s.objects t).logic _ ran ends).1 in
    rw (e, txn_at, ==_self t) (rw same (ground arith))
Acts-less {t} {s} (dies e ends) = rw (e, ==_self t) (ground arith)
Acts-less {t} {s} (locks_write held k ks st e locks) = rw (e, ==_self t) (ground arith)
Acts-less {t} {s} (checks held e) = rw (e, ==_self t) (ground arith)
Acts-less {t} {s} (unlocks_write verified k ks st e unlocks) = rw (e, ==_self t) (ground arith)
Acts-less {t} {s} (commits e) = rw (e, ==_self t) (ground arith)
Acts-less {t} {s} (restarts e) = rw (e, ==_self t) (ground arith)

move-others :
    (t j : ℕ) (p : Stage) (shared : Shared) (st : MvccStorage) (s : System)
    → (j == t) ≡ false
    → shared.objects t ≡ s.objects t
    → steps_at t (move j p shared st s) ≡ steps_at t s
move-others t j p shared st s n same = rw (n, txn_at, same) refl

-- A step of a thread leaves the other transactions where they are.
Acts-others :
    {j : ℕ} {s s' : System} (t : ℕ) → Acts j s s' → (j == t) ≡ false → steps_at t s' ≡ steps_at t s
unfolding mvcc_commit mvcc_restart new_txn_request push
Acts-others {j} {s} t (begins e) n = move-others t j _ s.shared s.storage s n refl
Acts-others {j} {s} t (locks_read k ks st e locks) n = move-others t j _ s.shared s.storage s n refl
Acts-others {j} {s} t (reads k ks junk e) n =
    move-others t j _ (noted j k (read k junk (txn_at s.shared j).unique_id s.storage).0 s.shared)
      s.storage s n (rw n refl)
Acts-others {j} {s} t (unlocks_read k ks st e unlocks) n =
    move-others t j _ s.shared s.storage s n refl
Acts-others {j} {s} t (runs ran e ends) n =
    move-others t j _ (record (set_txn j ran s.shared) { completed_txns = push j s.completed_txns })
      s.storage s n (rw n refl)
Acts-others {j} {s} t (dies e ends) n = move-others t j _ s.shared s.storage s n refl
Acts-others {j} {s} t (locks_write held k ks st e locks) n =
    move-others t j _ s.shared s.storage s n refl
Acts-others {j} {s} t (checks held e) n = move-others t j _ s.shared s.storage s n refl
Acts-others {j} {s} t (unlocks_write verified k ks st e unlocks) n =
    move-others t j _ s.shared s.storage s n refl
Acts-others {j} {s} t (commits e) n =
    move-others t j _ (mvcc_commit j s.shared) s.storage s n (rw n refl)
Acts-others {j} {s} t (restarts e) n =
    move-others t j _ (mvcc_restart j s.shared) s.storage s n (rw n refl)

-- Steps of the threads of the pool, in any order, of which `n` are of the one that executes `t`.
pub data Trace (t : ℕ) : ℕ → System → System → Type 0 where
  ends : {s : System} → Trace t 0 s s
  own : {n : ℕ} {s s' s'' : System} → Acts t s s' → Trace t n s' s'' → Trace t (suc n) s s''
  other :
      {n : ℕ} {s s' s'' : System} (j : ℕ)
      → (j == t) ≡ false
      → Acts j s s'
      → Trace t n s' s''
      → Trace t n s s''

-- However the threads of the pool take turns, the one that executes a transaction makes a bounded
-- number of steps: with those that it has left afterwards no more than it had left before. From the
-- queue of the pool on that is three for each key of the two sets, two more for each key of the write
-- set, and four.
pub mvcc-steps_bounded :
    (t : ℕ) {n : ℕ} {s s' : System} → Trace t n s s' → n + steps_at t s' ≤ steps_at t s
mvcc-steps_bounded t ends = ground arith
mvcc-steps_bounded t (own a r) = ground (arith, Acts-less a, mvcc-steps_bounded t r)
mvcc-steps_bounded t (other j apart a r) = rw (sym (Acts-others t a apart)) (mvcc-steps_bounded t r)
