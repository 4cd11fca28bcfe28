-- ===== src/Libc.antt =====
-- The functions of C's standard library that the program calls on text: `atoi` and `strtoul`, on
-- targets where `int` and `long` have 32 bits, and `isspace` in the "C" locale.
pub mod Digits
pub mod Decimal
use studio.Base.{
  ℕ, ◌+◌, ◌-◌, ◌*◌, ◌^◌, ◌%◌, Bool, true, false, ◌&&◌, ◌||◌, [], ◌∷◌, ltb, leb, ◌==◌, if◌then◌else◌,
  ℤ, pos, negsuc, Bytes, codes, ◌≡◌, refl,
}

abbrev pub is_digit : ℕ → Bool
is_digit c = leb b'0' c && leb c b'9'

pub is_space : ℕ → Bool
is_space c = c == b' ' || (leb 9 c && leb c 13)

skip_space : Bytes → Bytes
unfolding is_space
skip_space [] = []
skip_space (c ∷ cs) = if is_space c then skip_space cs else c ∷ cs

-- The number that the leading digits write, on top of those already read.
unfoldable pub digits_value : ℕ → Bytes → ℕ
digits_value acc [] = acc
digits_value acc (c ∷ cs) =
    let more = digits_value (acc * 10 + (c - b'0')) cs in if is_digit c then more else acc

-- The sign and the size of the number at the start of a text.
signed : Bytes → Bool × ℕ
signed [] = (false, 0)
signed (c ∷ cs) =
    if c == b'-'
    then (true, digits_value 0 cs)
    else if c == b'+'
    then (false, digits_value 0 cs)
    else (false, digits_value 0 (c ∷ cs))

read_number : Bytes → Bool × ℕ
unfolding skip_space signed digits_value
read_number s = signed (skip_space s)

-- `(int) strtol(s, NULL, 10)`, which stops at LONG_MIN and LONG_MAX.
clamp_long : Bool × ℕ → ℤ
clamp_long (false, n) = pos (if ltb n (2 ^ 31) then n else 2 ^ 31 - 1)
clamp_long (true, ℕ.zero) = pos 0
clamp_long (true, ℕ.suc n) = negsuc (if ltb n (2 ^ 31) then n else 2 ^ 31 - 1)

unfoldable pub atoi : Bytes → ℤ
unfolding read_number clamp_long
atoi s = clamp_long (read_number s)

-- `strtoul(s, NULL, 10)`: ULONG_MAX past the range, and a negated value modulo 2 ^ 32.
clamp_ulong : Bool × ℕ → ℕ
clamp_ulong (sign, n) =
    if ltb n (2 ^ 32) then (if sign then (2 ^ 32 - n) % 2 ^ 32 else n) else 2 ^ 32 - 1

unfoldable pub strtoul : Bytes → ℕ
unfolding read_number clamp_ulong
strtoul s = clamp_ulong (read_number s)

atoi_runs : atoi (codes " -12x") ≡ negsuc 11
unfolding atoi
atoi_runs = refl

strtoul_runs : strtoul (codes "99999") ≡ 99999
unfolding strtoul
strtoul_runs = refl
