-- ===== src/Storage/History.antt =====
-- What the storage holds after its initialisation and after a series of writes.
use database_concurrency_con.Prelude.{
  ℕ, zero, suc, ◌+◌, ◌≤◌, ◌<◌, ◌≡◌, refl, true, false, ◌&&◌, List, [], ◌∷◌, ◌++◌, some, ltb, leb,
  if◌then◌else◌, All, arith,
}
use database_concurrency_con.Storage.{
  Storage, empty, read, write, timestamp, init_from, init_storage, record_count,
}

init_from-values :
    (times : ℕ → ℕ) (n i k : ℕ) (s : Storage)
    → (init_from times n i s).values k ≡ (if leb i k && ltb k (i + n) then some 0 else s.values k)
unfolding init_from write
init_from-values times zero i k s = ground arith
init_from-values times (suc n) i k s =
    ground (arith, init_from-values times n (i + 1) k (write i 0 (times i) s))

init_from-timestamps :
    (times : ℕ → ℕ) (n i k : ℕ) (s : Storage)
    → (init_from times n i s).timestamps k
      ≡ (if leb i k && ltb k (i + n) then some (times k) else s.timestamps k)
unfolding init_from write
init_from-timestamps times zero i k s = ground arith
init_from-timestamps times (suc n) i k s =
    ground (arith, init_from-timestamps times n (i + 1) k (write i 0 (times i) s))

-- After the initialisation of a new storage the keys below one million read as 0, all others are
-- missing, and a key's timestamp is the time at which it was entered, or 0 if it was not.
pub read-init_storage :
    (times : ℕ → ℕ) (k result : ℕ)
    → (read k result (init_storage times empty)
        ≡ (if ltb k record_count then (true, 0) else (false, result)))
      × (timestamp k (init_storage times empty) ≡ (if ltb k record_count then times k else 0))
unfolding read timestamp init_storage
read-init_storage times k result = (
  ground (arith, init_from-values times record_count 0 k empty),
  ground (arith, init_from-timestamps times record_count 0 k empty),
)

-- A write, with its key, its value and the time at which it is made.
pub record Write : Type 0 where
  pub key : ℕ
  pub value : ℕ
  pub time : ℕ

unfoldable pub write_all : List Write → Storage → Storage
write_all [] s = s
write_all (w ∷ ws) s = write_all ws (write w.key w.value w.time s)

pub write_all-append :
    (ws vs : List Write) (s : Storage) → write_all (ws ++ vs) s ≡ write_all vs (write_all ws s)
unfolding write_all
write_all-append [] vs s = refl
write_all-append (w ∷ ws) vs s = write_all-append ws vs (write w.key w.value w.time s)

-- All the writes are later than `start`.
abbrev pub After : ℕ → List Write → Type 0
After start = All (λ w. start < w.time)

-- A key whose timestamp is not later than `start` has kept its value
-- and its timestamp through any writes that are later.
pub unchanged_since :
    (start k : ℕ) (ws : List Write) (s : Storage)
    → After start ws
    → timestamp k (write_all ws s) ≤ start
    → ((write_all ws s).values k ≡ s.values k) × ((write_all ws s).timestamps k ≡ s.timestamps k)
unfolding write_all write timestamp
unchanged_since start k [] s after h = (refl, refl)
unchanged_since start k (w ∷ ws) s after h =
    ground (arith, unchanged_since start k ws (write w.key w.value w.time s) after.1)
