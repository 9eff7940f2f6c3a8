-- ===== src/Processor/Mvcc/Locks.antt =====
-- The loops of `MVCCExecuteTxn` over the mutexes of the write set.
use database_concurrency_con.Prelude.{
  ℕ, ◌+◌, ◌≡◌, refl, ap, Bool, true, false, List, [], ◌∷◌, Option, some, update, All, contains,
  Distinct, if◌then◌else◌, arith,
}
use database_concurrency_con.MvccStorage.{MvccStorage, lock, unlock, write, check_write}
use database_concurrency_con.Processor.Mvcc.{lock_all, unlock_all, check_all, mvcc_apply}

-- The mutexes of the keys are all set to `b`, and nothing else differs.
abbrev pub SetTo : Bool → List ℕ → MvccStorage → MvccStorage → Type 0
SetTo b ks st st' =
    (st'.versions ≡ st.versions)
    × ((j : ℕ) → st'.mutexes j ≡ (if contains j ks then some b else st.mutexes j))

-- Every key has a mutex, and it is locked or not, as `b` says.
abbrev pub AreAll : Bool → List ℕ → MvccStorage → Type 0
AreAll b ks st = All (λ k. st.mutexes k ≡ some b) ks

AreAll-update :
    (b b' : Bool) (k : ℕ) (ks : List ℕ) (st : MvccStorage)
    → contains k ks ≡ false
    → AreAll b ks st
    → AreAll b ks (record st { mutexes = update st.mutexes k (some b') })
AreAll-update b b' k [] st new free = tt
AreAll-update b b' k (j ∷ ks) st new free =
    (ground (arith, new, free.0), AreAll-update b b' k ks st (ground (arith, new)) free.1)

SetTo-cons :
    (b : Bool) (k : ℕ) (ks : List ℕ) (st st' : MvccStorage)
    → SetTo b ks (record st { mutexes = update st.mutexes k (some b) }) st'
    → SetTo b (k ∷ ks) st st'
SetTo-cons b k ks st st' (versions, mutexes) = (versions, λ j. ground (arith, mutexes j))

pub lock_all_alone :
    (i : ℕ) (ks : List ℕ) (st : MvccStorage)
    → Distinct ks
    → AreAll false ks st
    → (st' : MvccStorage) × (lock_all (λ _ s. s) i ks st ≡ some st') × SetTo true ks st st'
unfolding lock_all lock
lock_all_alone i [] st d free = (st, refl, (refl, λ j. refl))
lock_all_alone i (k ∷ ks) st d free =
    let st₁ = record st { mutexes = update st.mutexes k (some true) } in
    let (st', ran, set) =
      lock_all_alone (i + 1) ks st₁ d.1 (AreAll-update false true k ks st d.0 free.1) in
    (st', rw (free.0, lock) ran, SetTo-cons true k ks st st' set)

pub unlock_all_locked :
    (ks : List ℕ) (st : MvccStorage)
    → Distinct ks
    → AreAll true ks st
    → (st' : MvccStorage) × (unlock_all ks st ≡ some st') × SetTo false ks st st'
unfolding unlock_all unlock
unlock_all_locked [] st d held = (st, refl, (refl, λ j. refl))
unlock_all_locked (k ∷ ks) st d held =
    let st₁ = record st { mutexes = update st.mutexes k (some false) } in
    let (st', ran, set) =
      unlock_all_locked ks st₁ d.1 (AreAll-update true false k ks st d.0 held.1) in
    (st', rw (held.0, unlock) ran, SetTo-cons false k ks st st' set)

-- The checks and the writes do not look at the mutexes.
pub check_all-versions :
    (id : ℕ) (ks : List ℕ) (st st' : MvccStorage)
    → st'.versions ≡ st.versions
    → check_all id ks st' ≡ check_all id ks st
unfolding check_all check_write
check_all-versions id [] st st' e = refl
check_all-versions id (k ∷ ks) st st' e =
    ground (arith, check_all-versions id ks st st' e, ap (λ (f : ℕ → Option _). f k) e)

pub mvcc_apply-mutexes :
    (id : ℕ) (writes : List (ℕ × ℕ)) (st : MvccStorage)
    → (mvcc_apply id writes st).mutexes ≡ st.mutexes
unfolding mvcc_apply write
mvcc_apply-mutexes id [] st = refl
mvcc_apply-mutexes id ((k, v) ∷ writes) st = mvcc_apply-mutexes id writes (write k v id st)

pub mvcc_apply-versions :
    (id : ℕ) (writes : List (ℕ × ℕ)) (st st' : MvccStorage)
    → st'.versions ≡ st.versions
    → (mvcc_apply id writes st').versions ≡ (mvcc_apply id writes st).versions
unfolding mvcc_apply write
mvcc_apply-versions id [] st st' e = e
mvcc_apply-versions id ((k, v) ∷ writes) st st' e =
    mvcc_apply-versions id writes (write k v id st) (write k v id st') (rw e refl)
