-- ===== src/Libc/Digits.antt =====
-- `strtoul` on a text of decimal digits that fills the start of an array of zeros.
use studio.Base.{
  ℕ, zero, suc, ◌+◌, ◌-◌, ◌*◌, ◌^◌, ◌<◌, true, false, [], ◌∷◌, ◌++◌, replicate, ◌==◌, Bytes, ◌≡◌,
  refl, arith, lt→ltb,
}
use studio.Libc.{
  is_digit, is_space, skip_space, digits_value, signed, read_number, clamp_ulong, strtoul,
}

abbrev pub AllDigits : Bytes → Type 0
AllDigits [] = Unit
AllDigits (c ∷ cs) = (is_digit c ≡ true) × AllDigits cs

digits_value-append :
    (ds : Bytes) (k acc : ℕ)
    → AllDigits ds
    → digits_value acc (ds ++ replicate k 0) ≡ digits_value acc ds
unfolding digits_value
digits_value-append [] zero acc h = refl
digits_value-append [] (suc k) acc h = refl
digits_value-append (c ∷ ds) k acc h =
    rw (h.0, digits_value-append ds k (acc * 10 + (c - b'0')) h.1) refl

pub digit-not_space : (c : ℕ) → is_digit c ≡ true → is_space c ≡ false
unfolding is_space
digit-not_space c h = ground arith

pub digit-not_sign : (c : ℕ) → is_digit c ≡ true → ((c == b'-') ≡ false) × ((c == b'+') ≡ false)
digit-not_sign c h = ground arith

-- `strtoul` reads a text of digits, behind which zeros follow, as the number that it writes.
pub strtoul_digits :
    (c : ℕ) (ds : Bytes) (k : ℕ)
    → AllDigits (c ∷ ds)
    → digits_value 0 (c ∷ ds) < 2 ^ 32
    → strtoul (c ∷ ds ++ replicate k 0) ≡ digits_value 0 (c ∷ ds)
unfolding strtoul read_number skip_space signed clamp_ulong
strtoul_digits c ds k h small =
    let e = digits_value-append (c ∷ ds) k 0 h in
    let n = digit-not_sign c h.0 in
    rw (digit-not_space c h.0, n.0, n.1, e, lt→ltb (digits_value 0 (c ∷ ds)) (2 ^ 32) small) refl
