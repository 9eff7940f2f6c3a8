-- ===== src/Txn/Access.antt =====
-- What a transaction's own reads and writes see.
use database_concurrency_con.Prelude.{
  ℕ, ◌≡◌, refl, true, false, ◌||◌, List, [], ◌∷◌, contains, find, find-assign, if◌then◌else◌, ◌==◌,
  done, died, ◌>>=◌, arith, ◌↔◌, All,
}
use database_concurrency_con.Txn.{
  Txn, incomplete, read, write, found_or, check_keys, check_read_write_sets,
}

-- While a transaction runs, a read of a key that it may use gives its own last write of that key,
-- and otherwise what was read from the storage; a key outside its sets ends the process.
pub read-write :
    (j k v old : ℕ) (t : Txn)
    → t.status ≡ incomplete
    → contains k t.writeset ≡ true
    → (write k v t >>= read j old) ≡ (
        if contains j t.readset || contains j t.writeset
        then done (if j == k then (true, v) else found_or old (find j t.reads))
        else died)
unfolding read write
read-write j k v old t e h = ground (arith, find-assign j k v t.reads)

check_keys_sound :
    (readset ks : List ℕ)
    → check_keys readset ks ≡ done tt
    → All (λ k. contains k readset ≡ false) ks
unfolding check_keys
check_keys_sound readset [] h = tt
check_keys_sound readset (k ∷ ks) h = ground (arith, check_keys_sound readset ks)

check_keys_complete :
    (readset ks : List ℕ)
    → All (λ k. contains k readset ≡ false) ks
    → check_keys readset ks ≡ done tt
unfolding check_keys
check_keys_complete readset [] h = refl
check_keys_complete readset (k ∷ ks) h = ground (arith, check_keys_complete readset ks h.1)

-- The check of the two sets ends the process if and only if they have a key in common.
check_read_write_sets_iff :
    (t : Txn)
    → (check_read_write_sets t ≡ done tt) ↔ All (λ k. contains k t.readset ≡ false) t.writeset
unfolding check_read_write_sets
check_read_write_sets_iff t =
    (check_keys_sound t.readset t.writeset, check_keys_complete t.readset t.writeset)
