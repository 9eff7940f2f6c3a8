-- ===== src/Processor/Occ/Origins.antt =====
-- What the accesses of the optimistic scheduler leave of a transaction that the client handed in, and
-- of the other transactions.
use database_concurrency_con.Prelude.{ℕ, ◌≡◌, refl, Bool, false, ◌==◌, ==_self}
use database_concurrency_con.TxnTypes.Tidy.{Tidy, Tidy-same}
use database_concurrency_con.Processor.Execution.Afresh.{Ready}
use database_concurrency_con.TxnTypes.{Object}
use database_concurrency_con.Txn.{incomplete, Txn}
use database_concurrency_con.Storage.{Storage}
use database_concurrency_con.Processor.Objects.{Shared, txn_at, new_txn_request}
use database_concurrency_con.Processor.Workers.{begin_txn, read_key, complete_txn}
use database_concurrency_con.Processor.Occ.{restart}

-- The two have the same sets.
abbrev pub SameSets : Txn → Txn → Type 0
SameSets txn handed = (txn.readset ≡ handed.readset) × (txn.writeset ≡ handed.writeset)

-- The first is the second as the client handed it in, if it has never been restarted; otherwise it has
-- the sets of the second, with reads and writes that may be left over.
abbrev pub From : Txn → Txn → Bool → Type 0
From txn handed restarted =
    SameSets txn handed
    × (restarted ≡ false → (txn.reads ≡ handed.reads) × (txn.writes ≡ handed.writes))

-- A new request and a restart leave the other transactions.
pub new_txn_request_others :
    (t : ℕ) (p : Shared) (j : ℕ) → (t == j) ≡ false → (new_txn_request t p).objects j ≡ p.objects j
unfolding new_txn_request
new_txn_request_others t p j n = rw n refl

pub restart_others :
    (t : ℕ) (p : Shared) (j : ℕ) → (t == j) ≡ false → (restart t p).objects j ≡ p.objects j
unfolding restart new_txn_request
restart_others t p j n = rw n refl

-- So do the steps of a thread.
pub begin_txn_others :
    (times : ℕ → ℕ) (t : ℕ) (p : Shared) (j : ℕ)
    → (t == j) ≡ false
    → (begin_txn times t p).objects j ≡ p.objects j
unfolding begin_txn
begin_txn_others times t p j n = rw n refl

pub read_key_others :
    (t k : ℕ) (st : Storage) (p : Shared) (j : ℕ)
    → (t == j) ≡ false
    → (read_key t k st p).objects j ≡ p.objects j
unfolding read_key
read_key_others t k st p j n = rw n refl

pub complete_txn_others :
    (t : ℕ) (ran : Txn) (p : Shared) (j : ℕ)
    → (t == j) ≡ false
    → (complete_txn t ran p).objects j ≡ p.objects j
unfolding complete_txn
complete_txn_others t ran p j n = rw n refl

-- A new request leaves the transaction's sets, reads and writes.
pub new_txn_request_lem :
    (t : ℕ) (p : Shared) → From (txn_at (new_txn_request t p) t) (txn_at p t) false
unfolding new_txn_request
new_txn_request_lem t p = rw (txn_at, ==_self t) ((refl, refl), λ e. (refl, refl))

-- A restart leaves its sets.
pub restart-SameSets : (t : ℕ) (p : Shared) → SameSets (txn_at (restart t p) t) (txn_at p t)
unfolding restart new_txn_request
restart-SameSets t p = rw (txn_at, ==_self t) (refl, refl)

-- The steps of a thread leave its sets, or make them those of what has run.
pub begin_txn-SameSets :
    (times : ℕ → ℕ) (t : ℕ) (p : Shared) → SameSets (txn_at (begin_txn times t p) t) (txn_at p t)
unfolding begin_txn
begin_txn-SameSets times t p = rw (txn_at, ==_self t) (refl, refl)

pub read_key-SameSets :
    (t k : ℕ) (st : Storage) (p : Shared) → SameSets (txn_at (read_key t k st p) t) (txn_at p t)
unfolding read_key
read_key-SameSets t k st p = rw (txn_at, ==_self t) (refl, refl)

pub complete_txn-SameSets :
    (t : ℕ) (ran : Txn) (p : Shared) → SameSets (txn_at (complete_txn t ran p) t) ran
unfolding complete_txn
complete_txn-SameSets t ran p = rw (txn_at, ==_self t) (refl, refl)

-- What a step leaves of it for its next run: the logic, and that it is ready.
abbrev Stays : Object → Object → Type 0
Stays o o' = (o'.logic ≡ o.logic) × (Ready o.logic o.txn → Ready o.logic o'.txn)

pub new_txn_request-Stays :
    (t : ℕ) (p : Shared) → Stays (p.objects t) ((new_txn_request t p).objects t)
unfolding new_txn_request
new_txn_request-Stays t p =
    rw (==_self t)
      (refl, λ r. (r.0, Tidy-same (p.objects t).logic (p.objects t).txn _ refl refl r.1))

pub begin_txn-Stays :
    (times : ℕ → ℕ) (t : ℕ) (p : Shared) → Stays (p.objects t) ((begin_txn times t p).objects t)
unfolding begin_txn
begin_txn-Stays times t p =
    rw (==_self t)
      (refl, λ r. (r.0, Tidy-same (p.objects t).logic (p.objects t).txn _ refl refl r.1))

pub read_key-Stays :
    (t k : ℕ) (st : Storage) (p : Shared) → Stays (p.objects t) ((read_key t k st p).objects t)
unfolding read_key
read_key-Stays t k st p =
    rw (==_self t)
      (refl, λ r. (r.0, Tidy-same (p.objects t).logic (p.objects t).txn _ refl refl r.1))

pub complete_txn_lem :
    (t : ℕ) (ran : Txn) (p : Shared)
    → (((complete_txn t ran p).objects t).logic ≡ (p.objects t).logic)
      × (((complete_txn t ran p).objects t).txn ≡ ran)
unfolding complete_txn
complete_txn_lem t ran p = rw (==_self t) (refl, refl)

restart_lem :
    (t : ℕ) (p : Shared)
    → (((restart t p).objects t).logic ≡ (p.objects t).logic)
      × ((txn_at (restart t p) t).status ≡ incomplete)
      × ((txn_at (restart t p) t).writes ≡ (txn_at p t).writes)
unfolding restart new_txn_request
restart_lem t p = rw (txn_at, ==_self t) (refl, refl, refl)

-- A restarted transaction is ready, since only the keys that it writes have pending writes.
pub restart-Ready :
    (t : ℕ) (p : Shared)
    → (((restart t p).objects t).logic ≡ (p.objects t).logic)
      × (Tidy (p.objects t).logic (p.objects t).txn
          → Ready (p.objects t).logic ((restart t p).objects t).txn)
restart-Ready t p =
    let (logic, status, writes) = restart_lem t p in
    (
      logic,
      λ tidy. (
        status,
        Tidy-same (p.objects t).logic (p.objects t).txn ((restart t p).objects t).txn
            (restart-SameSets t p).1 writes tidy,
      ),
    )
