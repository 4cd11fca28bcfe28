-- ===== src/EthMinimal/Receive.antt =====
-- examples/xbd-net/modules/minerva_esp32_minimal/netdev_eth_minimal.c: what `_recv` does.
use studio.Base.{
  ℕ, zero, suc, ◌-◌, ◌≤◌, ◌<◌, true, false, none, some, [], ◌∷◌, ◌++◌, length, take, drop, leb,
  Bytes, Returns, call, printf, od_hex_dump, num, str, ◌≡◌, refl, arith, ◌∙◌, ap, length-append,
  length-drop, take-append,
}
use studio.EthMinimal.{
  driver_recv, Env, State, ethernet_max_len, header_len, fill, payload_len, dump, print_frame,
  recv_frame, recv,
}

payload_len-frame : (n : ℕ) → header_len ≤ n → n ≤ ethernet_max_len → payload_len n ≡ n - header_len
payload_len-frame n h k = omega arith

payload_len-runt : (n : ℕ) → n < header_len → ethernet_max_len < payload_len n
payload_len-runt n h = omega arith

length-fill : (frame old : Bytes) → length frame ≤ length old → length (fill frame old) ≡ length old
length-fill frame old h =
    omega (arith, length-append frame (drop (length frame) old), length-drop (length frame) old)

take-drop_append :
    (k n : ℕ) (xs ys : Bytes)
    → k ≤ length xs
    → n ≡ length xs - k
    → take n (drop k (xs ++ ys)) ≡ drop k xs
take-drop_append zero n xs ys h e =
    let e' : n ≡ length xs = omega arith in rw e' (take-append xs ys)
take-drop_append (suc k) n [] ys h e = absurd (omega arith)
take-drop_append (suc k) n (x ∷ xs) ys h e = take-drop_append k n xs ys (omega arith) (omega arith)

-- What the handler prints of a whole frame, and that no byte but those of the frame changed.
abbrev pub Receives : Env → ℕ → Bytes → State → State → Type 0
Receives env dev frame s t =
    (t.log
      ≡ od_hex_dump (drop 14 frame)
        ∷ printf "Payload (%u bytes): \n" (num (length frame - 14) ∷ [])
        ∷ printf "Src. addr.: %s\n" (str (env.addr_to_str (take 6 (drop 6 frame))) ∷ [])
        ∷ printf "Dest. addr.: %s\n" (str (env.addr_to_str (take 6 frame)) ∷ [])
        ∷ call (driver_recv dev)
        ∷ printf "\n" []
        ∷ s.log)
    × (t.buffer ≡ fill frame s.buffer)
    × (t.devices ≡ s.devices)
    × (t.context ≡ s.context)

-- A frame as it is split into addresses, type and payload.
take-append_le : (n : ℕ) (xs ys : Bytes) → n ≤ length xs → take n (xs ++ ys) ≡ take n xs
take-append_le zero xs ys h = refl
take-append_le (suc n) [] ys h = absurd (omega arith)
take-append_le (suc n) (x ∷ xs) ys h = ap (◌∷◌ x) (take-append_le n xs ys (omega arith))

drop-append_le : (n : ℕ) (xs ys : Bytes) → n ≤ length xs → drop n (xs ++ ys) ≡ drop n xs ++ ys
drop-append_le zero xs ys h = refl
drop-append_le (suc n) [] ys h = absurd (omega arith)
drop-append_le (suc n) (x ∷ xs) ys h = drop-append_le n xs ys (omega arith)

fits : (n m : ℕ) → n ≤ m → leb n m ≡ true
fits n m h = ground arith

too_long : (n m : ℕ) → m < n → leb n m ≡ false
too_long n m h = ground arith

module _ (env : Env) (dev : ℕ) (s : State) where
  -- A frame that has a header and fits the buffer is read, and printed as its two addresses and the
  -- bytes behind the header, all of them and no other. The buffer holds the frame, and keeps what
  -- stood behind; the registry is left alone.
  pub recv_lem :
      (frame : Bytes)
      → env.received (call (driver_recv dev) ∷ printf "\n" [] ∷ s.log) ≡ some frame
      → header_len ≤ length frame
      → length frame ≤ ethernet_max_len
      → length s.buffer ≡ ethernet_max_len
      → Returns (λ _ t. Receives env dev frame s t) (recv env dev s)
  unfolding recv recv_frame print_frame dump
  recv_lem frame e lo hi sized =
      let old = drop (length frame) s.buffer in
      let n : payload_len (length frame) ≡ length frame - 14 =
        payload_len-frame (length frame) lo hi in
      let a = take-append_le 6 frame old (omega arith) in
      let b : take 6 (drop 6 (frame ++ old)) ≡ take 6 (drop 6 frame) =
        ap (take 6) (drop-append_le 6 frame old (omega arith))
        ∙ take-append_le 6 (drop 6 frame) old (omega (arith, length-drop 6 frame)) in
      let c = take-drop_append 14 (length frame - 14) frame old lo refl in
      let f =
        fits (length frame - 14) (length (drop 14 (frame ++ old)))
          (omega (arith, length-drop 14 (frame ++ old), length-append frame old)) in
      rw (e, n, f)
        (
          λ i.
              od_hex_dump (c i)
              ∷ printf "Payload (%u bytes): \n" (num (length frame - 14) ∷ [])
              ∷ printf "Src. addr.: %s\n" (str (env.addr_to_str (b i)) ∷ [])
              ∷ printf "Dest. addr.: %s\n" (str (env.addr_to_str (a i)) ∷ [])
              ∷ call (driver_recv dev)
              ∷ printf "\n" []
              ∷ s.log,
          refl,
          refl,
          refl,
        )

  -- A frame that is shorter than a header makes the dump read past the end of the buffer.
  pub recv_runt :
      (frame : Bytes)
      → env.received (call (driver_recv dev) ∷ printf "\n" [] ∷ s.log) ≡ some frame
      → length frame < header_len
      → length s.buffer ≡ ethernet_max_len
      → recv env dev s ≡ none
  unfolding recv recv_frame print_frame dump
  recv_runt frame e short sized =
      let old = drop (length frame) s.buffer in
      let n = payload_len-runt (length frame) short in
      let f =
        too_long (payload_len (length frame)) (length (drop 14 (frame ++ old)))
          (omega (arith, n, length-drop 14 (frame ++ old), length-fill frame s.buffer)) in
      rw (e, f) refl
