-- ===== src/Base/Int.antt =====
-- C's signed integers, and their conversion to the unsigned widths.
use Prim.Native.Nat.{ℕ, suc, ◌-◌, ◌%◌, ◌^◌}
use mathlib.Core.Bool.{Bool, true, false}

-- `negsuc n` is -(n + 1).
pub data ℤ : Type 0 where
  pos : ℕ → ℤ
  negsuc : ℕ → ℤ

-- x < 0
abbrev pub is_neg : ℤ → Bool
is_neg (pos n) = false
is_neg (negsuc n) = true

-- x <= 0
abbrev pub is_nonpos : ℤ → Bool
is_nonpos (pos ℕ.zero) = true
is_nonpos (pos (suc n)) = false
is_nonpos (negsuc n) = true

-- -x, for the printing of error codes
abbrev pub neg : ℤ → ℤ
neg (pos ℕ.zero) = pos 0
neg (pos (suc n)) = negsuc n
neg (negsuc n) = pos (suc n)

-- `(uint8_t) x`, `(uint16_t) x` and `(uint32_t) x`: the value modulo the width.
abbrev pub u8 : ℤ → ℕ
u8 (pos n) = n % 2 ^ 8
u8 (negsuc n) = 2 ^ 8 - 1 - n % 2 ^ 8

abbrev pub u16 : ℤ → ℕ
u16 (pos n) = n % 2 ^ 16
u16 (negsuc n) = 2 ^ 16 - 1 - n % 2 ^ 16

abbrev pub u32 : ℤ → ℕ
u32 (pos n) = n % 2 ^ 32
u32 (negsuc n) = 2 ^ 32 - 1 - n % 2 ^ 32
