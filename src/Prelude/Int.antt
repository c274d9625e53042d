-- ===== src/Prelude/Int.antt =====
-- Signed integers over the native numbers: job priorities and the integers of a JSON value.
use Prim.Native.Nat.{ℕ, suc, ◌+◌}
use mathlib.Core.Path.{◌≡◌}
use mathlib.Core.Bool.{Bool, true}
use native.Mathlib.Omega.{arith}
use inkspire_lorcana_develop.Prelude.Tests.{ltb, ◌==◌}

-- `negsuc n` is -(n + 1).
pub data ℤ : Type 0 where
  pos : ℕ → ℤ
  negsuc : ℕ → ℤ

abbrev pub pos_part : ℤ → ℕ
pos_part (pos n) = n
pos_part (negsuc n) = 0

abbrev pub neg_part : ℤ → ℕ
neg_part (pos n) = 0
neg_part (negsuc n) = suc n

abbrev pub ltb_ℤ : ℤ → ℤ → Bool
ltb_ℤ a b = ltb (pos_part a + neg_part b) (pos_part b + neg_part a)

abbrev pub eqb_ℤ : ℤ → ℤ → Bool
eqb_ℤ a b = (pos_part a + neg_part b) == (pos_part b + neg_part a)

pub eqb_ℤ_refl : (n : ℤ) → eqb_ℤ n n ≡ true
eqb_ℤ_refl (pos n) = ground arith
eqb_ℤ_refl (negsuc n) = ground arith
