-- ===== src/Lwip/Hex/Decode/Loop.antt =====
-- The loop of `hex2ints`, behind the bytes that are already written.
use Prim.Native.Nat.{bit_or}
use studio.Base.{
  ℕ, zero, suc, ◌+◌, ◌*◌, ◌%◌, ◌<◌, ◌≡◌, refl, sym, ap, ◌∙◌, Bool, true, false, Option, none, some,
  inl, inr, [], ◌∷◌, ◌++◌, append_assoc, Bytes, leb, ◌==◌, ==_iff, length, length-append, drop,
  get_elem?, set, if◌then◌else◌, Option-cases, arith,
}
use studio.Lwip.Hex.{Cursor, digit, store, nibble, hex_loop, finish, hex2ints}
use studio.Lwip.Hex.Decode.{digits, pack, decode, place, digit-lt}

-- A test of every digit below `bound`, by evaluation.
passes : (ℕ → Bool) → ℕ → Bool
passes test zero = true
passes test (suc bound) = if test bound then passes test bound else false

passes-digit :
    (bound : ℕ) (test : ℕ → Bool) (d : ℕ) → d < bound → passes test bound ≡ true → test d ≡ true
unfolding passes
passes-digit zero test d small e = absurd (omega arith)
passes-digit (suc bound) test d small e = ground (arith, passes-digit bound test d)

nibbles_table : passes (λ h. passes (λ d. bit_or (h * 16) d == (h * 16 + d)) 16) 16 ≡ true
unfolding passes
nibbles_table = refl

bit_or_nibbles : (h d : ℕ) → h < 16 → d < 16 → bit_or (h * 16) d ≡ h * 16 + d
bit_or_nibbles h d p q =
    let row =
      passes-digit 16 (λ h. passes (λ d. bit_or (h * 16) d == (h * 16 + d)) 16) h p nibbles_table in
    (==_iff _ _).0 (passes-digit 16 (λ d. bit_or (h * 16) d == (h * 16 + d)) d q row)

get-append :
    (pre : Bytes) (x : ℕ) (tail : Bytes) → get_elem? (pre ++ x ∷ tail) (length pre) ≡ some x
get-append [] x tail = refl
get-append (y ∷ pre) x tail = get-append pre x tail

set-append :
    (pre : Bytes) (x : ℕ) (tail : Bytes) (v : ℕ)
    → set (pre ++ x ∷ tail) (length pre) v ≡ pre ++ v ∷ tail
set-append [] x tail v = refl
set-append (y ∷ pre) x tail v = ap (◌∷◌ y) (set-append pre x tail v)

store-append :
    (pre : Bytes) (x : ℕ) (tail : Bytes) (v : ℕ)
    → store (pre ++ x ∷ tail) (length pre) v ≡ some (pre ++ v ∷ tail)
unfolding store
store-append pre x tail v = ground (arith, length-append pre (x ∷ tail), set-append pre x tail v)

store_full : (pre : Bytes) (v : ℕ) → store (pre ++ []) (length pre) v ≡ none
unfolding store
store_full pre v = ground (arith, length-append pre [])

abbrev at : Bytes → Bytes → Bool → Cursor
at pre tail upper = record {
  buf = pre ++ tail;
  out = length pre;
  out_size = length pre;
  upper = upper;
}

nibble_upper :
    (pre : Bytes) (x : ℕ) (tail : Bytes) (d : ℕ)
    → d < 16
    → nibble (at pre (x ∷ tail) true) d ≡ some (at pre ((d * 16) ∷ tail) false)
unfolding nibble
nibble_upper pre x tail d lt = ground (arith, store-append pre x tail (d * 16))

nibble_full : (pre : Bytes) (d : ℕ) → nibble (at pre [] true) d ≡ none
unfolding nibble
nibble_full pre d = ground (arith, store_full pre (d * 16 % 256))

nibble_lower :
    (pre : Bytes) (h : ℕ) (tail : Bytes) (d : ℕ)
    → h < 16
    → d < 16
    → nibble (at pre ((h * 16) ∷ tail) false) d ≡ some (at (pre ++ (h * 16 + d) ∷ []) tail true)
unfolding nibble
nibble_lower pre h tail d p q = ground (
  arith,
  get-append pre (h * 16) tail,
  store-append pre (h * 16) tail (h * 16 + d),
  bit_or_nibbles h d,
  length-append pre ((h * 16 + d) ∷ []),
  append_assoc pre ((h * 16 + d) ∷ []) tail,
)

-- The loop and what follows it.
run : Bytes → Cursor → Option (ℕ × Bytes)
run s c = elim (hex_loop s c) [ none ↦ none | some c' ↦ some (finish c') ]

run_skip : (ch : ℕ) (s : Bytes) (c : Cursor) → digit ch ≡ none → run (ch ∷ s) c ≡ run s c
unfolding run hex_loop
run_skip ch s c e = ground arith

run-digit :
    (ch : ℕ) (s : Bytes) (c c' : Cursor) {d : ℕ}
    → digit ch ≡ some d
    → nibble c d ≡ some c'
    → run (ch ∷ s) c ≡ run s c'
unfolding run hex_loop
run-digit ch s c c' e n = ground arith

run_fault :
    (ch : ℕ) (s : Bytes) (c : Cursor) {d : ℕ}
    → digit ch ≡ some d
    → nibble c d ≡ none
    → run (ch ∷ s) c ≡ none
unfolding run hex_loop
run_fault ch s c e n = ground arith

-- `place`, behind the bytes that are already there.
abbrev place_behind : Bytes → Bytes → Bytes → Option (ℕ × Bytes)
place_behind pre bytes tail =
    if leb (length bytes) (length tail)
    then some (length pre + length bytes, pre ++ (bytes ++ drop (length bytes) tail))
    else none

place_shift :
    (pre : Bytes) (b : ℕ) (bytes : Bytes) (x : ℕ) (tail : Bytes)
    → place_behind (pre ++ b ∷ []) bytes tail ≡ place_behind pre (b ∷ bytes) (x ∷ tail)
place_shift pre b bytes x tail = ground (
  arith,
  length-append pre (b ∷ []),
  append_assoc pre (b ∷ []) (bytes ++ drop (length bytes) tail),
)

digits_skip : (ch : ℕ) (s : Bytes) → digit ch ≡ none → digits (ch ∷ s) ≡ digits s
unfolding digits
digits_skip ch s e = ground arith

digits-digit : (ch : ℕ) (s : Bytes) {d : ℕ} → digit ch ≡ some d → digits (ch ∷ s) ≡ d ∷ digits s
unfolding digits
digits-digit ch s e = ground arith

pack_pair : (h l : ℕ) (ds : Bytes) → pack (h ∷ l ∷ ds) ≡ (h * 16 + l) ∷ pack ds
unfolding pack
pack_pair h l ds = refl

-- What starts with a digit needs room, and writes over the byte at the front.
place_full : (pre : Bytes) (d : ℕ) (ds : Bytes) → place_behind pre (pack (d ∷ ds)) [] ≡ none
unfolding pack
place_full pre d [] = ground arith
place_full pre d (l ∷ ds) = ground arith

place_over :
    (pre : Bytes) (d : ℕ) (ds : Bytes) (x y : ℕ) (tail : Bytes)
    → place_behind pre (pack (d ∷ ds)) (x ∷ tail) ≡ place_behind pre (pack (d ∷ ds)) (y ∷ tail)
unfolding pack
place_over pre d [] x y tail = refl
place_over pre d (l ∷ ds) x y tail = refl

run_upper_end :
    (pre tail : Bytes) → run [] (at pre tail true) ≡ place_behind pre (pack (digits [])) tail
unfolding run hex_loop finish pack digits
run_upper_end pre tail = ground arith

run_lower_end :
    (pre : Bytes) (h : ℕ) (tail : Bytes)
    → run [] (at pre ((h * 16) ∷ tail) false)
      ≡ place_behind pre (pack (h ∷ digits [])) ((h * 16) ∷ tail)
unfolding run hex_loop finish pack digits
run_lower_end pre h tail = ground arith

-- The upper half of a byte, from what the rest of the loop does.
run_upper_digit :
    (ch : ℕ) (s pre tail : Bytes) {d : ℕ}
    → digit ch ≡ some d
    → ((t : Bytes)
        → run s (at pre ((d * 16) ∷ t) false)
          ≡ place_behind pre (pack (d ∷ digits s)) ((d * 16) ∷ t))
    → run (ch ∷ s) (at pre tail true) ≡ place_behind pre (pack (d ∷ digits s)) tail
run_upper_digit ch s pre [] {d} e lower =
    run_fault ch s _ e (nibble_full pre d) ∙ sym (place_full pre d (digits s))
run_upper_digit ch s pre (x ∷ tail) {d} e lower =
    run-digit ch s _ _ e (nibble_upper pre x tail d (digit-lt ch e))
    ∙ lower tail
    ∙ place_over pre d (digits s) (d * 16) x tail

-- Both halves of the loop: at the start of a byte, and after its upper half.
mutual
  run_upper :
      (s pre tail : Bytes) → run s (at pre tail true) ≡ place_behind pre (pack (digits s)) tail
  run_upper [] pre tail = run_upper_end pre tail
  run_upper (ch ∷ s) pre tail = elim (Option-cases (digit ch)) [
    | inl e ↦ run_skip ch s _ e ∙ run_upper s pre tail ∙ rw (digits_skip ch s e)
    | inr (d, e) ↦
        rw (digits-digit ch s e)
          (run_upper_digit ch s pre tail e (λ t. run_lower s pre d t (digit-lt ch e)))
  ]

  run_lower :
      (s pre : Bytes) (h : ℕ) (tail : Bytes)
      → h < 16
      → run s (at pre ((h * 16) ∷ tail) false)
        ≡ place_behind pre (pack (h ∷ digits s)) ((h * 16) ∷ tail)
  run_lower [] pre h tail p = run_lower_end pre h tail
  run_lower (ch ∷ s) pre h tail p = elim (Option-cases (digit ch)) [
    | inl e ↦ run_skip ch s _ e ∙ run_lower s pre h tail p ∙ rw (digits_skip ch s e)
    | inr (d, e) ↦
        run-digit ch s _ _ e (nibble_lower pre h tail d p (digit-lt ch e))
        ∙ run_upper s (pre ++ (h * 16 + d) ∷ []) tail
        ∙ place_shift pre (h * 16 + d) (pack (digits s)) (h * 16) tail
        ∙ rw (digits-digit ch s e, pack_pair)
  ]

pub hex2ints_lem : (buf s : Bytes) → hex2ints buf s ≡ place (decode s) buf
unfolding hex2ints decode run
hex2ints_lem buf s = run_upper s [] buf ∙ ground arith
