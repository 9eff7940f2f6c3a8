-- ===== src/MvccStorage/Checks.antt =====
-- MVCCStorage::CheckWrite after any series of reads and writes.
use database_concurrency_con.Prelude.{
  ℕ, ◌<◌, ◌≡◌, refl, ◌∙◌, true, List, [], ◌∷◌, map, leb, last_or, ◌==◌, arith, Bool-cases, inl, inr,
  ==→≡,
}
use database_concurrency_con.MvccStorage.{
  Version, MvccStorage, empty, read, write, check_write, check_versions, init_storage, record_count,
}
use database_concurrency_con.MvccStorage.Visibility.{
  versions_of, mark, read-oldest_visible, init_storage-versions,
}

-- The call that `CheckWrite` answers is decided by the oldest version alone.
check_write-oldest :
    (key txn : ℕ) (v : Version) (vs : List Version) (s : MvccStorage)
    → versions_of key s ≡ v ∷ vs
    → check_write key txn s ≡ leb (last_or v vs).max_read_id txn
unfolding check_write check_versions
check_write-oldest key txn v vs s e = ground arith

-- The oldest version is one that no transaction can see, and none has marked it.
abbrev pub IsBase : List Version → Type 0
IsBase [] = ⊥
IsBase (v ∷ vs) = ((last_or v vs).version_id ≡ 0) × ((last_or v vs).max_read_id ≡ 0)

mark-last_or :
    (txn : ℕ) (v : Version) (vs : List Version)
    → last_or (mark txn v) (map (mark txn) vs) ≡ mark txn (last_or v vs)
mark-last_or txn v [] = refl
mark-last_or txn v (u ∷ vs) = mark-last_or txn u vs

mark-IsBase : (txn : ℕ) (vs : List Version) → IsBase vs → IsBase (map (mark txn) vs)
mark-IsBase txn [] h = h
mark-IsBase txn (v ∷ vs) h = rw (mark-last_or txn v vs) (ground arith)

-- The calls that change the storage.
pub data Call : Type 0 where
  reads : (key result txn : ℕ) → Call
  writes : (key value txn : ℕ) → Call

unfoldable pub step : MvccStorage → Call → MvccStorage
step s (reads key result txn) = (read key result txn s).1
step s (writes key value txn) = write key value txn s

unfoldable pub run : MvccStorage → List Call → MvccStorage
run s [] = s
run s (c ∷ cs) = run (step s c) cs

write-IsBase : (v : Version) (vs : List Version) → IsBase vs → IsBase (v ∷ vs)
write-IsBase v (u ∷ vs) h = h
write-IsBase v [] h = absurd h

pub step-IsBase :
    (k : ℕ) (s : MvccStorage) (c : Call)
    → IsBase (versions_of k s)
    → IsBase (versions_of k (step s c))
unfolding step write
step-IsBase k s (reads key result txn) h = elim (Bool-cases (key == k)) [
  | inl here ↦
      rw ((read-oldest_visible key result txn s).1 k, here) (mark-IsBase txn (versions_of k s) h)
  | inr there ↦ rw ((read-oldest_visible key result txn s).1 k, there) h
]
step-IsBase k s (writes key value txn) h = elim (Bool-cases (key == k)) [
  | inl here ↦ rw here (write-IsBase _ (versions_of key s) (rw (==→≡ key k here) h))
  | inr there ↦ rw there h
]

run-IsBase :
    (k : ℕ) (s : MvccStorage) (cs : List Call)
    → IsBase (versions_of k s)
    → IsBase (versions_of k (run s cs))
unfolding run
run-IsBase k s [] h = h
run-IsBase k s (c ∷ cs) h = run-IsBase k (step s c) cs (step-IsBase k s c h)

pub base_accepts :
    (k txn : ℕ) (vs : List Version) (s : MvccStorage)
    → versions_of k s ≡ vs
    → IsBase vs
    → check_write k txn s ≡ true
base_accepts k txn [] s e h = absurd h
base_accepts k txn (v ∷ vs) s e h = check_write-oldest k txn v vs s e ∙ ground arith

-- After the initialisation `CheckWrite` never rejects a write: whatever transactions have read and
-- written, and whichever later ones have read the key, it accepts every key below one million for
-- every transaction.
check_write-accepts :
    (k txn : ℕ) (cs : List Call)
    → k < record_count
    → check_write k txn (run (init_storage empty) cs) ≡ true
check_write-accepts k txn cs h =
    base_accepts k txn _ (run (init_storage empty) cs) refl
      (run-IsBase k (init_storage empty) cs base)
  where
    base : IsBase (versions_of k (init_storage empty))
    base = rw (init_storage-versions k) (ground arith)
