-- ===== src/Prelude/Integers.antt =====
-- Integers, and the tests of them that the sources make.
use Prim.Native.Nat.{ℕ, zero, suc}
use mathlib.Core.Bool.{Bool, true, false}
use spillway.Prelude.Tests.{leb}

-- `negsuc n` is -(n + 1).
pub data ℤ : Type 0 where
  pos : ℕ → ℤ
  negsuc : ℕ → ℤ

-- The tests `x <= 0`, `x < 0` and `x < 1`, of which the first and the last are one.
abbrev pub is_negative : ℤ → Bool
is_negative (pos n) = false
is_negative (negsuc n) = true

abbrev pub is_below_one : ℤ → Bool
is_below_one (pos zero) = true
is_below_one (pos (suc n)) = false
is_below_one (negsuc n) = true

-- The test `x <= y`
abbrev pub is_at_most : ℤ → ℤ → Bool
is_at_most (pos m) (pos n) = leb m n
is_at_most (pos m) (negsuc n) = false
is_at_most (negsuc m) (pos n) = true
is_at_most (negsuc m) (negsuc n) = leb n m

abbrev pub natural : ℤ → ℕ
natural (pos n) = n
natural (negsuc n) = 0
