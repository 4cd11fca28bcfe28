-- ===== src/Tests/Hex.antt =====
-- `hex2ints` at concrete texts.
use studio.Base.{some, [], ◌∷◌, Bytes, codes, ◌≡◌, refl, arith}
use studio.Lwip.Hex.{hex2ints, digit}
use studio.Lwip.Hex.Decode.{decode, pack, place}
use studio.Lwip.Hex.Decode.Loop.{hex2ints_lem}
use studio.Lwip.Hex.Bounds.{hex2ints_fits, hex2ints-to_hex, to_hex}

abbrev old : Bytes
old = 7 ∷ 7 ∷ 7 ∷ []

hex2ints_lem_example : hex2ints old (codes "aB:0") ≡ place (decode (codes "aB:0")) old
hex2ints_lem_example = hex2ints_lem old (codes "aB:0")

hex2ints_fits_example : hex2ints old (codes "12ab3") ≡ some (3, 0x12 ∷ 0xab ∷ 0x30 ∷ [])
unfolding decode pack digit
hex2ints_fits_example = hex2ints_fits 6 old (codes "12ab3") refl (omega arith)

hex2ints-to_hex_example : hex2ints old (to_hex (0xca ∷ 0x0e ∷ [])) ≡ some (2, 0xca ∷ 0x0e ∷ 7 ∷ [])
hex2ints-to_hex_example =
    hex2ints-to_hex (0xca ∷ 0x0e ∷ []) (7 ∷ 7 ∷ []) (7 ∷ []) (omega arith, (omega arith, tt)) refl

-- Half a byte, a character that is no digit, and what lies behind.
hex2ints_runs : hex2ints (7 ∷ 7 ∷ 7 ∷ []) (codes "aB-0") ≡ some (2, 0xab ∷ 0 ∷ 7 ∷ [])
unfolding hex2ints
hex2ints_runs = refl
