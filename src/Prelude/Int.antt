-- ===== src/Prelude/Int.antt =====
-- Signed integers, for the C `int` and `long long` values of the programs.
use Prim.Native.Nat.{ℕ, zero, suc, ◌+◌, ◌-◌, ◌*◌}
use mathlib.Core.Bool.{Bool, true, false}
use xjtu_os_project.Prelude.Tests.{ltb, leb, if◌then◌else◌}

-- `negsuc n` is -(n + 1).
pub data ℤ : Type 0 where
  pos : ℕ → ℤ
  negsuc : ℕ → ℤ

-- How far an integer is above zero, and how far below.
abbrev pub above_zero : ℤ → ℕ
above_zero (pos n) = n
above_zero (negsuc n) = 0

abbrev pub below_zero : ℤ → ℕ
below_zero (pos n) = 0
below_zero (negsuc n) = suc n

-- up - down
abbrev pub difference : ℕ → ℕ → ℤ
difference up down = if leb down up then pos (up - down) else negsuc (down - up - 1)

abbrev pub ltb_ℤ : ℤ → ℤ → Bool
ltb_ℤ a b = ltb (above_zero a + below_zero b) (above_zero b + below_zero a)

-- `a < 0` and `a == 0`
abbrev pub is_negative : ℤ → Bool
is_negative (pos n) = false
is_negative (negsuc n) = true

abbrev pub is_zero : ℤ → Bool
is_zero (pos zero) = true
is_zero _ = false

infixl 65 ◌+ℤ◌
abbrev pub ◌+ℤ◌ : ℤ → ℤ → ℤ
a +ℤ b = difference (above_zero a + above_zero b) (below_zero a + below_zero b)

infixl 65 ◌-ℤ◌
abbrev pub ◌-ℤ◌ : ℤ → ℤ → ℤ
a -ℤ b = difference (above_zero a + below_zero b) (below_zero a + above_zero b)

infixl 70 ◌*ℤ◌
abbrev pub ◌*ℤ◌ : ℤ → ℤ → ℤ
a *ℤ b =
    difference (above_zero a * above_zero b + below_zero a * below_zero b)
      (above_zero a * below_zero b + below_zero a * above_zero b)
