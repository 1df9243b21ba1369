-- ===== src/Base/Words.antt =====
-- Casts to the fixed widths of types.h, and the shifts of C.
use Prim.Native.Nat.{ℕ, ◌+◌, ◌*◌, ◌/◌, ◌%◌, ◌^◌}
use mathlib.Core.Bool.{Bool}
use orcas.Base.Tests.{ltb}

abbrev pub u8 : ℕ → ℕ
u8 n = n % 2 ^ 8

abbrev pub u16 : ℕ → ℕ
u16 n = n % 2 ^ 16

abbrev pub u32 : ℕ → ℕ
u32 n = n % 2 ^ 32

infixl 75 ◌<<<◌ ◌>>>◌
abbrev pub ◌<<<◌ : ℕ → ℕ → ℕ
x <<< k = x * 2 ^ k

abbrev pub ◌>>>◌ : ℕ → ℕ → ℕ
x >>> k = x / 2 ^ k

-- `a > b` on `int`s that are given by their 32 bits.
abbrev pub gt_int : ℕ → ℕ → Bool
gt_int a b = ltb (u32 (b + 2 ^ 31)) (u32 (a + 2 ^ 31))
