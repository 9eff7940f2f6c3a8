-- ===== src/Processor/Mvcc/Stages.antt =====
-- The multiversion scheduler: what a transaction at a stage holds, and what is known of it there.
use database_concurrency_con.Prelude.{
  ℕ, ◌<◌, ◌≡◌, refl, sym, Bool, true, false, ◌||◌, List, [], ◌∷◌, ◌++◌, Option, some, Option-cases,
  update, arith, All, contains, Bool-cases, inl, inr, ◌==◌, ==→≡, ==_self, if◌then◌else◌,
}
use database_concurrency_con.Txn.{Txn}
use database_concurrency_con.MvccStorage.{MvccStorage, record_count, lock, unlock}
use database_concurrency_con.Processor.Mvcc.Mutexes.{
  IsOwned, IsOwned-take, IsOwned-give, IsOwned-same,
}
use database_concurrency_con.Processor.Mvcc.System.{
  Stage, outside, requested, queued, dead, fetching, reading, leaving, locking, releasing, IsSorted,
  IsGood,
}

-- Whether the mutex of `j` is held.
abbrev pub holds : Stage → ℕ → Bool
holds outside j = false
holds requested j = false
holds queued j = false
holds dead j = false
holds (fetching ks) j = false
holds (reading k ks) j = j == k
holds (leaving k ks) j = j == k
holds (locking held todo) j = contains j held
holds (releasing verified ks) j = contains j ks

abbrev pub holds_at : (ℕ → Stage) → ℕ → ℕ → Bool
holds_at stage t j = holds (stage t) j

abbrev IsKey : ℕ → Type 0
IsKey k = k < record_count

-- What is known of a transaction at a stage.
abbrev pub IsWell : Stage → Txn → Type 0
IsWell outside txn = Unit
IsWell requested txn = IsGood txn
IsWell queued txn = IsGood txn
IsWell dead txn = Unit
IsWell (fetching ks) txn = IsGood txn × All IsKey ks
IsWell (reading k ks) txn = IsGood txn × All IsKey (k ∷ ks)
IsWell (leaving k ks) txn = IsGood txn × All IsKey (k ∷ ks)
IsWell (locking held todo) txn = IsGood txn × (held ++ todo ≡ txn.writeset)
IsWell (releasing verified ks) txn = IsGood txn × IsSorted ks

-- A change of the transaction that leaves its sets.
IsWell-same :
    (p : Stage) (txn txn' : Txn)
    → txn'.readset ≡ txn.readset
    → txn'.writeset ≡ txn.writeset
    → IsWell p txn
    → IsWell p txn'
IsWell-same outside txn txn' r w h = tt
IsWell-same requested txn txn' r w h = rw (r, w) h
IsWell-same queued txn txn' r w h = rw (r, w) h
IsWell-same dead txn txn' r w h = tt
IsWell-same (fetching ks) txn txn' r w h = rw (r, w) h
IsWell-same (reading k ks) txn txn' r w h = rw (r, w) h
IsWell-same (leaving k ks) txn txn' r w h = rw (r, w) h
IsWell-same (locking held todo) txn txn' r w h = rw (r, w) h
IsWell-same (releasing verified ks) txn txn' r w h = rw (r, w) h

pub sorted_absent : (k : ℕ) (ks : List ℕ) → All (λ j. k < j) ks → contains k ks ≡ false
sorted_absent k [] h = refl
sorted_absent k (j ∷ ks) h = ground (arith, h.0, sorted_absent k ks h.1)

pub lock_inv :
    (k : ℕ) (st st' : MvccStorage)
    → lock k st ≡ some st'
    → (st.mutexes k ≡ some false) × (st' ≡ record st { mutexes = update st.mutexes k (some true) })
unfolding lock
lock_inv k st st' e = elim (Option-cases (st.mutexes k)) [
  | inl missing ↦ ground (arith, rw (lock, missing) at e)
  | inr (true, held) ↦ ground (arith, rw (lock, held) at e, held)
  | inr (false, free) ↦ ground (arith, rw (lock, free) at e, free)
]

pub unlock_inv :
    (k : ℕ) (st st' : MvccStorage)
    → unlock k st ≡ some st'
    → (st.mutexes k ≡ some true) × (st' ≡ record st { mutexes = update st.mutexes k (some false) })
unfolding unlock
unlock_inv k st st' e = elim (Option-cases (st.mutexes k)) [
  | inl missing ↦ ground (arith, rw (unlock, missing) at e)
  | inr (true, held) ↦ ground (arith, rw (unlock, held) at e, held)
  | inr (false, free) ↦ ground (arith, rw (unlock, free) at e, free)
]

module _ (mutexes : ℕ → Option Bool) (stage : ℕ → Stage) (t : ℕ) (p : Stage) where
  pub keep-IsOwned :
      ((j : ℕ) → holds p j ≡ holds (stage t) j)
      → IsOwned mutexes (holds_at stage)
      → IsOwned mutexes (holds_at (update stage t p))
  keep-IsOwned same = IsOwned-same mutexes _ _ (λ a j. elim (Bool-cases (t == a)) [
    | inl e ↦ rw (e, same j, ==→≡ t a e) refl
    | inr e ↦ rw e refl
  ])

  pub take-IsOwned :
      (k : ℕ)
      → ((j : ℕ) → holds p j ≡ (holds (stage t) j || j == k))
      → mutexes k ≡ some false
      → IsOwned mutexes (holds_at stage)
      → IsOwned (update mutexes k (some true)) (holds_at (update stage t p))
  take-IsOwned k same free o =
      IsOwned-same (update mutexes k (some true)) _ _
        (λ a j. elim (Bool-cases (t == a)) [
          | inl e ↦ rw (sym (==→≡ t a e), ==_self t, same j) (ground arith)
          | inr e ↦ rw e (ground (arith, e, ==→≡ a t, ==_self t))
        ])
        (IsOwned-take mutexes (holds_at stage) t k free o)

  pub give-IsOwned :
      (k : ℕ)
      → ((j : ℕ) → holds p j ≡ (if j == k then false else holds (stage t) j))
      → holds (stage t) k ≡ true
      → IsOwned mutexes (holds_at stage)
      → IsOwned (update mutexes k (some false)) (holds_at (update stage t p))
  give-IsOwned k same mine o =
      IsOwned-same (update mutexes k (some false)) _ _
        (λ a j. elim (Bool-cases (t == a)) [
          | inl e ↦ rw (sym (==→≡ t a e), ==_self t, same j) (ground arith)
          | inr e ↦ rw e (ground (arith, e, ==→≡ a t, ==_self t))
        ])
        (IsOwned-give mutexes (holds_at stage) t k mine o)
