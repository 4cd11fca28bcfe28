-- ===== src/Libc/Decimal.antt =====
-- What `%d` and `%u` print, and that `atoi` reads it back.
use studio.Base.{
  ℕ, zero, suc, ◌+◌, ◌-◌, ◌*◌, ◌/◌, ◌%◌, ◌^◌, ◌≤◌, ◌<◌, true, [], ◌∷◌, length, ltb, if◌then◌else◌,
  pos, Bytes, ◌≡◌, refl, ◌∙◌, ap, arith, inl, inr, Bool-cases, lt→ltb,
}
use studio.Libc.{is_digit, skip_space, digits_value, signed, read_number, clamp_long, atoi}
use studio.Libc.Digits.{AllDigits, digit-not_space, digit-not_sign}

-- The decimal digits of a number below 10 ^ 10.
decimal_digits : ℕ → ℕ → Bytes → Bytes
decimal_digits zero n acc = acc
decimal_digits (suc fuel) n acc =
    let c = b'0' + n % 10 in
    let more = decimal_digits fuel (n / 10) (c ∷ acc) in if ltb n 10 then c ∷ acc else more

unfoldable pub decimal : ℕ → Bytes
unfolding decimal_digits
decimal n = decimal_digits 10 n []

-- 10 ^ k
abbrev bound : ℕ → ℕ
bound zero = 1
bound (suc k) = 10 * bound k

digit-mod : (n : ℕ) → is_digit (b'0' + n % 10) ≡ true
digit-mod n = ground arith

digit_step :
    (m n : ℕ) (acc : Bytes)
    → digits_value m ((b'0' + n % 10) ∷ acc) ≡ digits_value (m * 10 + n % 10) acc
unfolding digits_value
digit_step m n acc =
    let e : m * 10 + (b'0' + n % 10 - b'0') ≡ m * 10 + n % 10 = omega arith in
    rw (digit-mod n, e) refl

value_lem :
    (fuel n : ℕ) (acc : Bytes)
    → n < bound fuel
    → digits_value 0 (decimal_digits fuel n acc) ≡ digits_value n acc
unfolding decimal_digits
value_lem zero n acc h = let e : n ≡ 0 = omega arith in rw e refl
value_lem (suc fuel) n acc h = elim (Bool-cases (ltb n 10)) [
  | inl e ↦
      let small : n < 10 = ground arith in
      rw e (digit_step 0 n acc ∙ ap (λ m. digits_value m acc) (omega arith))
  | inr e ↦ rw e (
      value_lem fuel (n / 10) ((b'0' + n % 10) ∷ acc) (omega arith)
      ∙ digit_step (n / 10) n acc
      ∙ ap (λ m. digits_value m acc) (omega arith))
]

digits_lem : (fuel n : ℕ) (acc : Bytes) → AllDigits acc → AllDigits (decimal_digits fuel n acc)
unfolding decimal_digits
digits_lem zero n acc h = h
digits_lem (suc fuel) n acc h = elim (Bool-cases (ltb n 10)) [
  | inl e ↦ rw e (digit-mod n, h)
  | inr e ↦ rw e (digits_lem fuel (n / 10) ((b'0' + n % 10) ∷ acc) (digit-mod n, h))
]

length_lem :
    (fuel k n : ℕ) (acc : Bytes)
    → n < bound k
    → 0 < k
    → length (decimal_digits fuel n acc) ≤ k + length acc
unfolding decimal_digits
length_lem zero k n acc h p = omega arith
length_lem (suc fuel) zero n acc h p = absurd (omega arith)
length_lem (suc fuel) (suc k) n acc h p = elim (Bool-cases (ltb n 10)) [
  | inl e ↦ rw e (omega arith)
  | inr e ↦
      let big : 10 ≤ n = ground arith in
      rw e (
        omega (
          arith,
          length_lem fuel k (n / 10) ((b'0' + n % 10) ∷ acc) (omega arith) (below k n h big),
        ))
]
  where
    below : (k n : ℕ) → n < bound (suc k) → 10 ≤ n → 0 < k
    below zero n h big = absurd (omega arith)
    below (suc k) n h big = omega arith

longer_lem : (fuel n : ℕ) (acc : Bytes) → length acc < length (decimal_digits (suc fuel) n acc)
unfolding decimal_digits
longer_lem zero n acc = ground arith
longer_lem (suc fuel) n acc = elim (Bool-cases (ltb n 10)) [
  | inl e ↦ rw e (omega arith)
  | inr e ↦ rw e (omega (arith, longer_lem fuel (n / 10) ((b'0' + n % 10) ∷ acc)))
]

atoi_digits :
    (s : Bytes)
    → 0 < length s
    → AllDigits s
    → digits_value 0 s < 2 ^ 31
    → atoi s ≡ pos (digits_value 0 s)
unfolding atoi read_number skip_space signed clamp_long
atoi_digits [] l h small = absurd (omega arith)
atoi_digits (c ∷ ds) l h small =
    let n = digit-not_sign c h.0 in
    rw (digit-not_space c h.0, n.0, n.1, lt→ltb (digits_value 0 (c ∷ ds)) (2 ^ 31) small) refl

atoi_value :
    (s : Bytes) (n : ℕ)
    → 0 < length s
    → AllDigits s
    → digits_value 0 s ≡ n
    → n < 2 ^ 31
    → atoi s ≡ pos n
atoi_value s n l h e small = atoi_digits s l h (omega (arith, e)) ∙ ap pos e

-- `atoi` reads what `%d` printed of a number of 16 bits.
pub atoi-decimal : (n : ℕ) → n < 2 ^ 16 → atoi (decimal n) ≡ pos n
unfolding decimal
atoi-decimal n h =
    atoi_value (decimal_digits 10 n []) n (longer_lem 9 n []) (digits_lem 10 n [] tt)
      (value_lem 10 n [] (omega arith) ∙ digits_nil n) (omega arith)
  where
    digits_nil : (m : ℕ) → digits_value m [] ≡ m
    digits_nil m = unfold digits_value in refl

-- A number of at most five digits is printed in five bytes.
pub length-decimal : (n : ℕ) → n < 10 ^ 5 → length (decimal n) ≤ 5
unfolding decimal
length-decimal n h = omega (arith, length_lem 10 5 n [] (omega arith) (omega arith))
