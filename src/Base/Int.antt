-- ===== src/Base/Int.antt =====
-- The `int` that an input or output call returns: a count, 0, or a negative error.
use mo_t.Base.Tests.{◌==◌}
use Prim.Native.Nat.{ℕ, ◌<◌}
use mathlib.Core.Bool.{Bool, true, false}
use mathlib.Core.Path.{◌≡◌, refl}
use native.Mathlib.Omega.{arith}

-- `negsuc n` is -(n + 1).
pub data ℤ : Type 0 where
  pos : ℕ → ℤ
  negsuc : ℕ → ℤ

-- i <= 0
abbrev pub is_nonpositive : ℤ → Bool
is_nonpositive (pos n) = n == 0
is_nonpositive (negsuc n) = true

-- The value of a count.
abbrev pub pos_part : ℤ → ℕ
pos_part (pos n) = n
pos_part (negsuc n) = 0

-- A result that passes `> 0` is a count of at least one.
pub positive_count : (i : ℤ) → is_nonpositive i ≡ false → (i ≡ pos (pos_part i)) × (0 < pos_part i)
positive_count (pos n) h = (refl, ground arith)
positive_count (negsuc n) h = cc
