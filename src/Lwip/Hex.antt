-- ===== src/Lwip/Hex.antt =====
-- examples/native-lwip/main/common.c: `hex2ints`. The out-buffer is an array that the caller owns;
-- a write or a read outside it gives `none`.
pub mod Decode
pub mod Bounds
use Prim.Native.Nat.{bit_or}
use studio.Base.{
  ℕ, ◌+◌, ◌-◌, ◌*◌, ◌%◌, ◌^◌, Bool, true, false, not, ◌&&◌, Option, none, some, List, [], ◌∷◌, ltb,
  leb, if◌then◌else◌, length, get_elem?, set, Bytes, codes, Prog, pure, ◌>>=◌, ◌>>◌, lift, gets,
  modify, ◌≡◌, refl,
}

-- The locals of the loop: the array, the place that `out` points at, `out_size` and `upper`.
pub record Cursor : Type 0 where
  pub buf : Bytes
  pub out : ℕ
  pub out_size : ℕ
  pub upper : Bool

-- `*in - c`, if the character is a hex digit.
unfoldable pub digit : ℕ → Option ℕ
digit ch =
    if leb b'0' ch && leb ch b'9'
    then some (ch - b'0')
    else if leb b'a' ch && leb ch b'f'
    then some (ch - (b'a' - 10))
    else if leb b'A' ch && leb ch b'F'
    then some (ch - (b'A' - 10))
    else none

-- buf[i] = v
unfoldable pub store : Bytes → ℕ → ℕ → Option Bytes
store buf i v = if ltb i (length buf) then some (set buf i v) else none

put_upper : Cursor → ℕ → Option Cursor
put_upper c d = elim (store c.buf c.out (d * 2 ^ 4 % 2 ^ 8)) [
  | none ↦ none
  | some buf ↦ some (record c { buf = buf; upper = false })
]

put_lower : Cursor → ℕ → Option Cursor
put_lower c d = elim (get_elem? c.buf c.out) [
  | none ↦ none
  | some old ↦ elim (store c.buf c.out (bit_or old d)) [
    | none ↦ none
    | some buf ↦
        some (record { buf = buf; out = c.out + 1; out_size = c.out_size + 1; upper = true })
  ]
]

-- One round of the loop on a hex digit.
unfoldable pub nibble : Cursor → ℕ → Option Cursor
unfolding put_upper put_lower
nibble c d = if c.upper then put_upper c d else put_lower c d

unfoldable pub hex_loop : Bytes → Cursor → Option Cursor
hex_loop [] c = some c
hex_loop (ch ∷ s) c = elim (digit ch) [
  | none ↦ hex_loop s c
  | some d ↦ elim (nibble c d) [ none ↦ none | some c' ↦ hex_loop s c' ]
]

-- The size that is returned, and the array afterwards.
finish : Cursor → ℕ × Bytes
finish c = (if not c.upper then c.out_size + 1 else c.out_size, c.buf)

unfoldable pub hex2ints : Bytes → Bytes → Option (ℕ × Bytes)
unfolding digit store nibble hex_loop finish
hex2ints buf s = elim (hex_loop s (record { buf = buf; out = 0; out_size = 0; upper = true })) [
  | none ↦ none
  | some c ↦ some (finish c)
]
