-- ===== src/Lwip/Hex/Decode.antt =====
-- What `hex2ints` means: the hex digits of the text in pairs, and where the bytes are put.
pub mod Loop
use studio.Base.{
  ℕ, suc, ◌+◌, ◌*◌, ◌<◌, ◌≤◌, ◌≡◌, refl, Option, none, some, List, [], ◌∷◌, ◌++◌, Bytes, leb,
  length, drop, if◌then◌else◌, arith,
}
use studio.Lwip.Hex.{digit}

-- The values of the hex digits; every other character is skipped.
unfoldable pub digits : Bytes → Bytes
digits [] = []
digits (ch ∷ s) = elim (digit ch) [ none ↦ digits s | some d ↦ d ∷ digits s ]

-- Two digits make a byte, and an odd one at the end is a byte's upper half.
unfoldable pub pack : Bytes → Bytes
pack [] = []
pack (h ∷ []) = h * 16 ∷ []
pack (h ∷ l ∷ ds) = (h * 16 + l) ∷ pack ds

unfoldable pub decode : Bytes → Bytes
unfolding digits
decode s = pack (digits s)

-- The bytes at the front of an array, if it has room for them.
abbrev pub place : Bytes → Bytes → Option (ℕ × Bytes)
place bytes buf =
    if leb (length bytes) (length buf)
    then some (length bytes, bytes ++ drop (length bytes) buf)
    else none

pub digit-lt : (ch : ℕ) {d : ℕ} → digit ch ≡ some d → d < 16
unfolding digit
digit-lt ch h = ground arith

-- Two characters make a byte at most.
pub length-pack : (ds : Bytes) → length (pack ds) + length (pack ds) ≤ length ds + 1
unfolding pack
length-pack [] = omega arith
length-pack (h ∷ []) = omega arith
length-pack (h ∷ l ∷ ds) = omega (arith, length-pack ds)

length-digits : (s : Bytes) → length (digits s) ≤ length s
unfolding digits
length-digits [] = omega arith
length-digits (ch ∷ s) = ground (arith, length-digits s)

pub length-decode : (s : Bytes) → length (decode s) + length (decode s) ≤ length s + 1
unfolding decode
length-decode s = omega (arith, length-pack (digits s), length-digits s)
