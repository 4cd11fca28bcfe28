-- ===== src/Lwip/Hex/Bounds.antt =====
-- common.c: `hex2ints` at the arrays of its callers, and on bytes that were written in hex.
use studio.Base.{
  ℕ, ◌+◌, ◌-◌, ◌/◌, ◌%◌, ◌<◌, ◌≤◌, ◌≡◌, ◌∙◌, refl, sym, ap, none, some, [], ◌∷◌, ◌++◌, Bytes, ltb,
  length, length-append, drop, if◌then◌else◌, arith,
}
use studio.Lwip.Hex.{digit, hex2ints}
use studio.Lwip.Hex.Decode.{digits, pack, decode, length-decode, place}
use studio.Lwip.Hex.Decode.Loop.{hex2ints_lem}

-- A text that fits a shell's line of `n` bytes, its NUL included, decodes into `n / 2` bytes.
pub decode-le-half : (n : ℕ) (s : Bytes) → length s < n → length (decode s) ≤ n / 2
decode-le-half n s h = omega (arith, length-decode s)

-- The call of every `send` command: an array of half a line for an argument of the line. No byte
-- is written outside the array, and its front holds the decoded bytes.
pub hex2ints_fits :
    (n : ℕ) (buf s : Bytes)
    → length buf ≡ n / 2
    → length s < n
    → hex2ints buf s ≡ some (length (decode s), decode s ++ drop (length (decode s)) buf)
hex2ints_fits n buf s e h = hex2ints_lem buf s ∙ ground (arith, decode-le-half n s h)

-- A character that is no hex digit may stand anywhere and changes nothing.
digits_noise :
    (pre : Bytes) (ch : ℕ) (post : Bytes)
    → digit ch ≡ none
    → digits (pre ++ ch ∷ post) ≡ digits (pre ++ post)
unfolding digits
digits_noise [] ch post h = ground arith
digits_noise (x ∷ pre) ch post h = ground (arith, digits_noise pre ch post h)

pub hex2ints_noise :
    (buf pre : Bytes) (ch : ℕ) (post : Bytes)
    → digit ch ≡ none
    → hex2ints buf (pre ++ ch ∷ post) ≡ hex2ints buf (pre ++ post)
unfolding decode
hex2ints_noise buf pre ch post h =
    hex2ints_lem buf (pre ++ ch ∷ post)
    ∙ ap (λ ds. place (pack ds) buf) (digits_noise pre ch post h)
    ∙ sym (hex2ints_lem buf (pre ++ post))

-- `%02x` of each byte.
abbrev nibble_char : ℕ → ℕ
nibble_char n = if ltb n 10 then b'0' + n else b'a' + (n - 10)

pub to_hex : Bytes → Bytes
to_hex [] = []
to_hex (b ∷ bs) = nibble_char (b / 16) ∷ nibble_char (b % 16) ∷ to_hex bs

abbrev pub IsBytes : Bytes → Type 0
IsBytes [] = Unit
IsBytes (b ∷ bs) = (b < 256) × IsBytes bs

digit-nibble_char : (n : ℕ) → n < 16 → digit (nibble_char n) ≡ some n
unfolding digit
digit-nibble_char n h = ground arith

decode-to_hex : (bs : Bytes) → IsBytes bs → decode (to_hex bs) ≡ bs
unfolding decode pack digits to_hex
decode-to_hex [] h = refl
decode-to_hex (b ∷ bs) h =
    ground (arith, digit-nibble_char (b / 16), digit-nibble_char (b % 16), decode-to_hex bs h.1)

drop-append : (xs ys : Bytes) → drop (length xs) (xs ++ ys) ≡ ys
drop-append [] ys = refl
drop-append (x ∷ xs) ys = drop-append xs ys

-- Bytes written in hex are read back, into any array that has room, which keeps what lies behind.
pub hex2ints-to_hex :
    (bs old rest : Bytes)
    → IsBytes bs
    → length old ≡ length bs
    → hex2ints (old ++ rest) (to_hex bs) ≡ some (length bs, bs ++ rest)
hex2ints-to_hex bs old rest h e =
    hex2ints_lem (old ++ rest) (to_hex bs)
    ∙ ap (λ out. place out (old ++ rest)) (decode-to_hex bs h)
    ∙ ground (arith, length-append old rest, drop-append old rest)
