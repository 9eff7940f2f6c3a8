-- ===== src/Processor/Execution/Later.antt =====
-- Storages that come from each other by writes later than some time, and what is read from them.
use database_concurrency_con.Prelude.{
  ℕ, ◌+◌, ◌≤◌, ◌≡◌, refl, ap, ◌∙◌, sym, List, [], ◌∷◌, ◌++◌, All, arith,
}
use database_concurrency_con.Storage.{Storage, read, timestamp}
use database_concurrency_con.Storage.History.{
  Write, write_all, write_all-append, After, unchanged_since,
}
use database_concurrency_con.Processor.Execution.{fetch, fetch_all}

-- The second storage comes from the first by writes that are later than `start`.
abbrev pub Later : ℕ → Storage → Storage → Type 0
Later start s s' = (ws : List Write) × After start ws × (s' ≡ write_all ws s)

After-append :
    (start : ℕ) (ws vs : List Write) → After start ws → After start vs → After start (ws ++ vs)
After-append start [] vs p q = q
After-append start (w ∷ ws) vs p q = (p.0, After-append start ws vs p.1 q)

pub Later-trans :
    (start : ℕ) (s s' s'' : Storage) → Later start s s' → Later start s' s'' → Later start s s''
Later-trans start s s' s'' (ws, after, e) (vs, after', e') = (
  ws ++ vs,
  After-append start ws vs after after',
  e' ∙ ap (write_all vs) e ∙ sym (write_all-append ws vs s),
)

fetch_all-Later :
    (others : ℕ → List Write) (start i : ℕ) (ks : List ℕ) (s : Storage) (reads : List (ℕ × ℕ))
    → ((j : ℕ) → After start (others j))
    → Later start s (fetch_all others i ks s reads).0
unfolding fetch_all write_all
fetch_all-Later others start i [] s reads h = ([], tt, refl)
fetch_all-Later others start i (k ∷ ks) s reads h =
    Later-trans start s s' _ (others i, h i, refl)
      (fetch_all-Later others start (i + 1) ks s' (fetch k s' reads) h)
  where
    s' : Storage
    s' = write_all (others i) s

pub fetch-Later :
    (start k : ℕ) (s s' : Storage) (reads : List (ℕ × ℕ))
    → Later start s s'
    → timestamp k s' ≤ start
    → fetch k s reads ≡ fetch k s' reads
unfolding fetch read
fetch-Later start k s s' reads (ws, after, e) h =
    ground (
      arith,
      ap (λ (s : Storage). s.values k) e ∙ (unchanged_since start k ws s after (rw e at h)).0,
    )

pub fetch_all_alone :
    (i : ℕ) (ks : List ℕ) (s : Storage) (reads : List (ℕ × ℕ))
    → (fetch_all (λ _. []) i ks s reads).0 ≡ s
unfolding fetch_all write_all
fetch_all_alone i [] s reads = refl
fetch_all_alone i (k ∷ ks) s reads = fetch_all_alone (i + 1) ks s (fetch k s reads)

-- A reading loop, with writes in between, reads what it reads alone from a later storage in which
-- the keys are not younger than `start`.
pub fetch_all-reads :
    (others : ℕ → List Write) (start i j : ℕ) (ks : List ℕ) (s s' : Storage)
    → (reads : List (ℕ × ℕ)) → ((n : ℕ) → After start (others n))
    → Later start (fetch_all others i ks s reads).0 s'
    → All (λ k. timestamp k s' ≤ start) ks
    → (fetch_all others i ks s reads).1 ≡ (fetch_all (λ _. []) j ks s' reads).1
unfolding fetch_all write_all
fetch_all-reads others start i j [] s s' reads h later old = refl
fetch_all-reads others start i j (k ∷ ks) s s' reads h later old =
    fetch_all-reads others start (i + 1) (j + 1) ks s₁ s' (fetch k s₁ reads) h later old.1
    ∙ ap (λ (r : List (ℕ × ℕ)). (fetch_all (λ _. []) (j + 1) ks s' r).1)
        (fetch-Later start k s₁ s' reads
          (Later-trans start s₁ _ s'
            (fetch_all-Later others start (i + 1) ks s₁ (fetch k s₁ reads) h) later)
          old.0)
  where
    s₁ : Storage
    s₁ = write_all (others i) s

pub fetch_all-snoc :
    (i : ℕ) (ds : List ℕ) (k : ℕ) (st : Storage) (rs : List (ℕ × ℕ))
    → (fetch_all (λ _. []) i (ds ++ k ∷ []) st rs).1 ≡ fetch k st (fetch_all (λ _. []) i ds st rs).1
unfolding fetch_all write_all
fetch_all-snoc i [] k st rs = refl
fetch_all-snoc i (d ∷ ds) k st rs = fetch_all-snoc (i + 1) ds k st (fetch d st rs)
