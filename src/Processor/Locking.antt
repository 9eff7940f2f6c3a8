-- ===== src/Processor/Locking.antt =====
-- txn/txn_processor.cc: `RunLockingScheduler`, over any lock manager. Its results are `none` where
-- the lock manager reads a null pointer.
pub mod Rollback
pub mod Releases
use database_concurrency_con.Prelude.{
  ℕ, ◌+◌, Bool, true, false, List, [], ◌∷◌, ◌++◌, Option, none, some, length, ltb, if◌then◌else◌,
  Outcome, done, died,
}
use database_concurrency_con.Txn.{
  Txn, TxnStatus, incomplete, completed_c, completed_a, committed, aborted,
}
use database_concurrency_con.Storage.{Storage}
use database_concurrency_con.LockManager.Interface.{LockManager}
use database_concurrency_con.Atomic.Queue.{push, pop}
use database_concurrency_con.Processor.Objects.{Shared, txn_at, set_status, new_txn_request}
use database_concurrency_con.Processor.Execution.{apply_writes}

infixl 5 ◌>>=◌
abbrev pub ◌>>=◌ {ℓ κ} : {A : Type ℓ} {B : Type κ} → Option A → (A → Option B) → Option B
none >>= f = none
some a >>= f = f a

module _ {S : Type 0} (m : LockManager S) where
  -- The loops that release the keys from the first to the one given last.
  unfoldable pub release_all : ℕ → List ℕ → S → Option S
  release_all t [] s = some s
  release_all t (k ∷ ks) s = do s' ← m.release t k s; release_all t ks s'

  -- A loop that asks for locks, by `lock`, on the keys `ks`; `before` are the keys asked for so far,
  -- and `several` says whether the transaction has more than one key. A refusal sets `blocked`, and
  -- with several keys it ends the loop and releases all keys asked for, this one included.
  unfoldable pub acquire :
      (ℕ → ℕ → S → Bool × S) → Bool → ℕ → List ℕ → List ℕ → Bool → S → Option (Bool × S)
  acquire lock several t before [] blocked s = some (blocked, s)
  acquire lock several t before (k ∷ ks) blocked s =
      let (ok, s') = lock t k s in
      let asked = before ++ k ∷ [] in
      let rest = acquire lock several t asked ks (if ok then blocked else true) s' in
      if ok
      then rest
      else if several
      then (do s'' ← release_all t asked s'; some (true, s''))
      else rest

  -- The second loop, which runs only if the first has not been blocked.
  unfoldable pub acquire_writes : Bool → ℕ → Txn → Bool × S → Option (Bool × S)
  acquire_writes several t txn (true, s) = some (true, s)
  acquire_writes several t txn (false, s) =
      acquire m.write_lock several t txn.readset txn.writeset false s

  abbrev pub is_several : Txn → Bool
  is_several txn = ltb 1 (length txn.readset + length txn.writeset)

  -- Both loops: whether the transaction is blocked.
  unfoldable pub acquire_all : ℕ → Txn → S → Option (Bool × S)
  acquire_all t txn s = do
    r ← acquire m.read_lock (is_several txn) t [] txn.readset false s
    acquire_writes (is_several txn) t txn r

  -- The branches behind the loops: ready, restarted, or waiting for its one lock.
  unfoldable pub after_acquire : ℕ → Bool → Bool → Shared → S → Shared × S
  after_acquire t false several p s = (p, m.set_ready (m.ready_txns s ++ t ∷ []) s)
  after_acquire t true true p s = (new_txn_request t p, s)
  after_acquire t true false p s = (p, s)

  -- The handling of a request that was popped.
  unfoldable pub start_txn : ℕ → Shared → S → Option (Shared × S)
  start_txn t p s = do
    (blocked, s') ← acquire_all t (txn_at p t) s
    some (after_acquire t blocked (is_several (txn_at p t)) p s')

  -- The branches on the status of a transaction that has finished running.
  unfoldable pub settle : (ℕ → ℕ) → TxnStatus → ℕ → Shared → Storage → Outcome (Shared × Storage)
  settle times completed_a t p st = done (set_status t aborted p, st)
  settle times completed_c t p st =
      let (st', ticks') = apply_writes times (txn_at p t).writes p.ticks st in
      done (record (set_status t committed p) { ticks = ticks' }, st')
  settle times incomplete t p st = died
  settle times committed t p st = died
  settle times aborted t p st = died

  -- The release of all locks, and the result.
  unfoldable pub give_result : ℕ → Shared → S → Option (Shared × S)
  give_result t p s = do
    s₁ ← release_all t (txn_at p t).readset s
    s₂ ← release_all t (txn_at p t).writeset s₁
    some (record p { txn_results = push t p.txn_results }, s₂)

  -- The body of the loop over the finished transactions.
  unfoldable pub finish_txn :
      (ℕ → ℕ) → ℕ → Shared → Storage → S → Outcome (Option ((Shared × S) × Storage))
  finish_txn times t p st s = elim (settle times (txn_at p t).status t p st) [
    | died ↦ died
    | done r ↦ done (do r' ← give_result t r.0 s; some (r', r.1))
  ]

  -- The loop over the finished transactions.
  unfoldable pub finish_all :
      (ℕ → ℕ) → List ℕ → Shared → Storage → S → Outcome (Option ((Shared × S) × Storage))
  finish_all times [] p st s = done (some ((p, s), st))
  finish_all times (t ∷ ts) p st s = elim (finish_txn times t p st s) [
    | died ↦ died
    | done none ↦ done none
    | done (some r) ↦ finish_all times ts r.0.0 r.1 r.0.1
  ]

  -- The last loop of a round: the transactions that are handed to the thread pool, in order.
  unfoldable pub dispatch : S → List ℕ × S
  dispatch s = (m.ready_txns s, m.set_ready [] s)

  -- The first part of a round: the request in front, if there is one.
  unfoldable pub start_next : Option ℕ → Shared → S → Option (Shared × S)
  start_next none p s = some (p, s)
  start_next (some t) p s = start_txn t p s

  -- A round of the loop of `RunLockingScheduler`: what it hands to the thread pool, and the state.
  -- The transactions that have finished are those that have when the second part starts; one that
  -- finishes later is taken to finish before the next round.
  unfoldable pub locking_round :
      (ℕ → ℕ) → Shared → Storage → S → Outcome (Option (List ℕ × (Shared × S) × Storage))
  locking_round times p st s =
      let (t, q) = pop p.txn_requests in
      elim (start_next t (record p { txn_requests = q }) s) [
        | none ↦ done none
        | some (p₁, s₁) ↦
            elim (finish_all times p₁.completed_txns (record p₁ { completed_txns = [] }) st s₁) [
              | died ↦ died
              | done none ↦ done none
              | done (some ((p₂, s₂), st₂)) ↦
                  let (tasks, s₃) = dispatch s₂ in done (some (tasks, (p₂, s₃), st₂))
            ]
      ]
