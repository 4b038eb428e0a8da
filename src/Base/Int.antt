-- ===== src/Base/Int.antt =====
-- The signed integers that C++ returns: a number, or the negative of one more.
use Prim.Native.Nat.{ℕ}
use mathlib.Core.Bool.{Bool, true}
use lingx.Base.Tests.{◌==◌}

-- `negsuc n` is -(n + 1).
pub data ℤ : Type 0 where
  pos : ℕ → ℤ
  negsuc : ℕ → ℤ

abbrev pub minus_one : ℤ
minus_one = negsuc 0

-- The test `z <= 0`.
abbrev pub nonpos : ℤ → Bool
nonpos (pos n) = n == 0
nonpos (negsuc n) = true
