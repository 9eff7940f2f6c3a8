-- ===== src/Prelude/Tables.antt =====
-- Functions from numbers as tables, and the signed counts of `int`.
use Prim.Native.Nat.{ℕ, zero, suc}
use mathlib.Core.Path.{◌≡◌, fun_ext}
use mathlib.Core.Logic.{◌≢◌}
use mathlib.Core.Bool.{Bool, true, false}
use native.Mathlib.Omega.{arith}
use database_concurrency_con.Prelude.Tests.{◌==◌, if◌then◌else◌}

-- `table[k] = v`
abbrev pub update {ℓ} : {A : Type ℓ} → (ℕ → A) → ℕ → A → ℕ → A
update f k v j = if k == j then v else f j

module _ {ℓ} {A : Type ℓ} (f : ℕ → A) (k : ℕ) where
  pub update_self : (v : A) → update f k v k ≡ v
  update_self v = ground arith

  pub update_ne : (v : A) (j : ℕ) → k ≢ j → update f k v j ≡ f j
  update_ne v j h = ground arith

  pub update-update : (v w : A) → update (update f k v) k w ≡ update f k w
  update-update v w = fun_ext λ j. ground arith

  pub update_same : update f k (f k) ≡ f
  update_same = fun_ext λ j. ground arith

-- `int`, without its bounds; `negsuc n` is -(n + 1).
pub data ℤ : Type 0 where
  pos : ℕ → ℤ
  negsuc : ℕ → ℤ

-- `n++`
abbrev pub succ : ℤ → ℤ
succ (pos n) = pos (suc n)
succ (negsuc zero) = pos 0
succ (negsuc (suc n)) = negsuc n

-- `n--`
abbrev pub pred : ℤ → ℤ
pred (pos zero) = negsuc 0
pred (pos (suc n)) = pos n
pred (negsuc n) = negsuc (suc n)

-- `n <= 0`
abbrev pub is_nonpos : ℤ → Bool
is_nonpos (pos zero) = true
is_nonpos (pos (suc n)) = false
is_nonpos (negsuc n) = true

-- `n == 0`
abbrev pub is_zero : ℤ → Bool
is_zero (pos zero) = true
is_zero (pos (suc n)) = false
is_zero (negsuc n) = false
