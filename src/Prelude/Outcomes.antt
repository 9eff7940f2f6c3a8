-- ===== src/Prelude/Outcomes.antt =====
-- Code that can end the process: `DIE` prints a message and calls `exit(1)`.

pub data Outcome {ℓ} (A : Type ℓ) : Type ℓ where
  done : A → Outcome A
  died : Outcome A

infixl 5 ◌>>=◌
abbrev pub ◌>>=◌ {ℓ κ} : {A : Type ℓ} {B : Type κ} → Outcome A → (A → Outcome B) → Outcome B
done a >>= f = f a
died >>= f = died
