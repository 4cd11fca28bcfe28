-- ===== src/Gcoap/Server/Link.antt =====
-- server.c: `_encode_link`, and where it writes.
use studio.Base.{
  ℕ, zero, suc, ◌+◌, ◌-◌, ◌%◌, ◌^◌, ◌≤◌, ◌<◌, true, Option, none, some, [], ◌∷◌, ◌++◌, length, take,
  drop, ltb, leb, ℤ, pos, Bytes, codes, ◌≡◌, refl, ◌∙◌, ap, inl, inr, arith, Bool-cases,
  length-append, length-drop, length-take, append_assoc,
}
use studio.Gcoap.Server.{write_at, link_params, add_params, with_params, encode_link}

-- The result is no longer than the buffer, which keeps its size and the `n` bytes at its start.
abbrev pub Kept : ℕ → ℕ → Bytes → Option (ℤ × Option Bytes) → Type 0
Kept n maxlen buf none = ⊥
Kept n maxlen buf (some (r, none)) = ⊥
Kept n maxlen buf (some (r, some b)) =
    ((m : ℕ) × (r ≡ pos m) × (n ≤ m) × (m ≤ maxlen))
    × (length b ≡ length buf)
    × (take n b ≡ take n buf)

take-take : (n : ℕ) (xs ys : Bytes) → n ≤ length xs → take n (take n xs ++ ys) ≡ take n xs
take-take zero xs ys h = refl
take-take (suc n) [] ys h = absurd (omega arith)
take-take (suc n) (x ∷ xs) ys h = ap (◌∷◌ x) (take-take n xs ys (omega arith))

written : Bytes → ℕ → Bytes → Bytes
written buf n text = take n buf ++ text ++ drop (n + length text) buf

write_at_fits :
    (buf : Bytes) (n : ℕ) (text : Bytes)
    → n + length text ≤ length buf
    → write_at buf n text ≡ some (written buf n text)
unfolding write_at written
write_at_fits buf n text h =
    let e : leb (n + length text) (length buf) ≡ true = ground arith in rw e refl

length-written :
    (buf : Bytes) (n : ℕ) (text : Bytes)
    → n + length text ≤ length buf
    → length (written buf n text) ≡ length buf
unfolding written
length-written buf n text h = omega (
  arith,
  length-append (take n buf ++ text) (drop (n + length text) buf),
  length-append (take n buf) text,
  length-take n buf,
  length-drop (n + length text) buf,
)

take-written :
    (buf : Bytes) (n : ℕ) (text : Bytes) → n ≤ length buf → take n (written buf n text) ≡ take n buf
unfolding written
take-written buf n text h =
    ap (take n) (append_assoc (take n buf) text (drop (n + length text) buf))
    ∙ take-take n buf (text ++ drop (n + length text) buf) h

with_params_lem :
    (params : Option Bytes) (n maxlen : ℕ) (buf : Bytes)
    → n ≤ maxlen
    → maxlen < 2 ^ 32
    → maxlen ≤ length buf
    → Kept n maxlen buf (with_params params n maxlen (some buf))
unfolding with_params add_params
with_params_lem none n maxlen buf h w b = ((n, refl, omega arith, h), refl, refl)
with_params_lem (some text) n maxlen buf h w b =
    elim (Bool-cases (ltb (length text) ((maxlen + 2 ^ 32 - n) % 2 ^ 32))) [
      | inl e ↦
          let small : n + length text ≤ maxlen = ground arith in
          rw (e, Kept)
            (rw (write_at_fits buf n text (omega arith), Kept)
              (
                (n + length text, refl, omega arith, omega arith),
                length-written buf n text (omega arith),
                take-written buf n text (omega arith),
              ))
      | inr e ↦ rw (e, Kept) ((n, refl, omega arith, h), refl, refl)
    ]

encode_pos_lem :
    (n link_pos maxlen : ℕ) (buf : Bytes)
    → suc n ≤ maxlen
    → link_pos < 2
    → maxlen < 2 ^ 32
    → maxlen ≤ length buf
    → Kept (suc n) maxlen buf (encode_link (pos (suc n)) link_pos maxlen (some buf))
unfolding encode_link link_params
encode_pos_lem n zero maxlen buf h p w b =
    with_params_lem (some (codes ";ct=0;rt=\"count\";obs")) (suc n) maxlen buf h w b
encode_pos_lem n (suc zero) maxlen buf h p w b = with_params_lem none (suc n) maxlen buf h w b
encode_pos_lem n (suc (suc k)) maxlen buf h p w b = absurd (omega arith)

-- For a link that gcoap wrote within the buffer, at a position of the parameter list, the encoder
-- returns: it writes nothing outside the buffer, leaves the link's bytes as they were, and the
-- length that it returns is at least the link's and at most that of the buffer.
pub encode_link_lem :
    (n link_pos maxlen : ℕ) (buf : Bytes)
    → n ≤ maxlen
    → link_pos < 2
    → maxlen < 2 ^ 32
    → maxlen ≤ length buf
    → Kept n maxlen buf (encode_link (pos n) link_pos maxlen (some buf))
unfolding encode_link
encode_link_lem zero link_pos maxlen buf h p w b = ((0, refl, omega arith, h), refl, refl)
encode_link_lem (suc n) link_pos maxlen buf h p w b = encode_pos_lem n link_pos maxlen buf h p w b
