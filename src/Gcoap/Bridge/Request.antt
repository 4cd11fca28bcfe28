-- ===== src/Gcoap/Bridge/Request.antt =====
-- examples/xbd-net/modules/minerva_xbd/gcoap.c: the packet of `xbd_gcoap_req_send`.
use studio.Base.{
  ℕ, suc, ◌+◌, ◌≤◌, ◌<◌, Bool, true, false, none, some, [], ◌∷◌, length, leb, ◌==◌, if◌then◌else◌,
  Bytes, Prog, pure, Returns, Returns-map, Returns-bind, ◌>>=◌, ◌>>◌, calls, ◌≡◌, refl, arith, puts,
  printf, num, str,
}
use studio.Gcoap.{non, set_type, req_init_code, finish_none, finish_payload, raw_header, payload, Pdu, Env, State, say}
use studio.Gcoap.Server.{notify_observers}
use studio.Gcoap.Server.Stats.{notify_observers_lem}
use studio.Gcoap.Client.{empty, send_found}
use studio.Gcoap.Client.Send.{found_target, Sends, send_found_lem}
use studio.Gcoap.Same.{SameVars}
use studio.Gcoap.Client.Command.Message.{NotificationFits, Follows}
use studio.Gcoap.Bridge.{
  first_packet, send_to, header_for, copy_payload, send_payload, xbd_gcoap_req_send,
}

-- The packet with its payload, if there is one.
abbrev pub carrying : Bytes → Pdu → Pdu
carrying [] pdu = pdu
carrying (c ∷ cs) pdu = payload (c ∷ cs) ∷ pdu

-- The packet of a new request: a request of the method for the URI, not confirmable, that ends with the
-- marker of a payload exactly if it has one.
abbrev pub new_request : ℕ → Bytes → Bytes → Pdu
new_request method uri [] = finish_none ∷ set_type non ∷ req_init_code method uri ∷ []
new_request method uri (c ∷ cs) = finish_payload ∷ set_type non ∷ req_init_code method uri ∷ []

module _ (env : Env) where
  -- The header that the Rust side has copied for a later block.
  abbrev pub copied_header : Bool → ℕ → State → Bytes
  copied_header blockwise idx s = if blockwise then env.hdr_copy s.log idx else []

  -- The packet up to its payload, and its length, by the header that was copied.
  abbrev pub header_of : Bytes → ℕ → Bytes → Bytes → Pdu × ℕ
  header_of [] method uri text =
      (new_request method uri text, env.finish_len (new_request method uri text))
  header_of (c ∷ cs) method uri text = (raw_header (c ∷ cs) ∷ [], suc (length cs))

  -- After lines that were printed, in the state `u`, the packet is sent to the endpoint that the
  -- address names, and the observers are notified exactly if bytes were sent.
  abbrev pub Sent : Pdu → ℕ → Bytes → State → State → Type 0
  Sent pdu len addr s t =
      (u : State) × (calls u.log ≡ calls s.log)
      × SameVars s u
      × (n : ℕ) × (v : State) × Sends env (found_target env (env.name2ep u.log addr env.old_remote))
          pdu len u n v
      × Follows env (n == 0) v t

  follow_lem :
      (nothing : Bool) (v : State)
      → NotificationFits env
      → Returns
          (λ _ t. Follows env nothing v t)
          ((if nothing then say (puts "gcoap_cli: msg send failed") else notify_observers env) v)
  follow_lem true v fits = refl
  follow_lem false v fits = notify_observers_lem env v (fits v.req_count)

  copy_lem :
      (pdu : Pdu) (hdr_len : ℕ) (text : Bytes)
      → hdr_len + length text ≤ env.pdu_buf_size
      → copy_payload env pdu hdr_len text ≡ some (carrying text pdu)
  unfolding copy_payload
  copy_lem pdu hdr_len [] h = refl
  copy_lem pdu hdr_len (c ∷ cs) h =
      let e : leb (hdr_len + suc (length cs)) env.pdu_buf_size ≡ true = ground arith in rw e refl

  sent_lem :
      (pdu : Pdu) (len : ℕ) (addr : Bytes) (s u : State)
      → NotificationFits env
      → calls u.log ≡ calls s.log
      → SameVars s u
      → Returns
          (λ _ t. Sent pdu len addr s t)
          ((do
            bytes_sent ← send_to env pdu len addr
            if bytes_sent == 0
                then say (puts "gcoap_cli: msg send failed")
                else notify_observers env)
            u)
  unfolding send_to
  sent_lem pdu len addr s u fits c same =
      let found = env.name2ep u.log addr env.old_remote in
      Returns-bind (send_found env pdu len found) (Sends env (found_target env found) pdu len u)
        (λ _ t. Sent pdu len addr s t)
        (λ n. if n == 0 then say (puts "gcoap_cli: msg send failed") else notify_observers env) u
        (send_found_lem env pdu len found u)
        (λ n v h.
          Returns-map (λ _ t. Follows env (n == 0) v t) (λ _ t. Sent pdu len addr s t)
            ((if n == 0 then say (puts "gcoap_cli: msg send failed") else notify_observers env) v)
            (λ _ t q. (u, c, same, n, v, h, q)) (follow_lem (n == 0) v fits))

  send_payload_lem :
      (pdu : Pdu) (hdr_len : ℕ) (text addr : Bytes) (s u : State)
      → NotificationFits env
      → hdr_len + length text ≤ env.pdu_buf_size
      → calls u.log ≡ calls s.log
      → SameVars s u
      → Returns
          (λ _ t. Sent (carrying text pdu) (hdr_len + length text) addr s t)
          (send_payload env pdu hdr_len text addr u)
  unfolding send_payload
  send_payload_lem pdu hdr_len text addr s u fits room c same =
      rw (copy_lem pdu hdr_len text room)
        (sent_lem (carrying text pdu) (hdr_len + length text) addr s u fits c same)

  -- The request behind the copying of the header.
  from_header : Bytes → Bytes → Bytes → ℕ → Bytes → Bool → ℕ → Prog State Unit
  from_header copied addr uri method text blockwise idx = do
    (pdu, hdr_len) ← header_for env copied idx method uri (if empty text then false else true)
    say (
        printf "@@ xbd_gcoap_req_send(): addr: %s, uri: %s hdr_len: %u\n"
          (str addr ∷ str uri ∷ num hdr_len ∷ []))
    if blockwise
        then say (printf "@@ debug - blockwise_state_index: %u\n" (num idx ∷ []))
        else pure tt
    say (printf "@@ payload: %p payload_len: %d\n" (num (length text) ∷ []))
    send_payload env pdu hdr_len text addr

  from_header_lem :
      (copied addr uri : Bytes) (method : ℕ) (text : Bytes) (blockwise : Bool) (idx : ℕ) (s : State)
      → NotificationFits env
      → (header_of copied method uri text).1 + length text ≤ env.pdu_buf_size
      → Returns
          (λ _ t.
            Sent
              (carrying text (header_of copied method uri text).0)
              ((header_of copied method uri text).1 + length text)
              addr
              s
              t)
          (from_header copied addr uri method text blockwise idx s)
  unfolding header_for from_header
  from_header_lem [] addr uri method [] true idx s fits room =
      send_payload_lem _ _ [] addr s _ fits room refl (refl, refl, refl, refl, refl, refl)
  from_header_lem [] addr uri method (x ∷ xs) true idx s fits room =
      send_payload_lem _ _ (x ∷ xs) addr s _ fits room refl (refl, refl, refl, refl, refl, refl)
  from_header_lem [] addr uri method [] false idx s fits room =
      send_payload_lem _ _ [] addr s _ fits room refl (refl, refl, refl, refl, refl, refl)
  from_header_lem [] addr uri method (x ∷ xs) false idx s fits room =
      send_payload_lem _ _ (x ∷ xs) addr s _ fits room refl (refl, refl, refl, refl, refl, refl)
  from_header_lem (c ∷ cs) addr uri method text true idx s fits room =
      send_payload_lem _ _ text addr s _ fits room refl (refl, refl, refl, refl, refl, refl)
  from_header_lem (c ∷ cs) addr uri method text false idx s fits room =
      send_payload_lem _ _ text addr s _ fits room refl (refl, refl, refl, refl, refl, refl)

  -- For a header and a payload that fit the buffer together, and a notification that has room for
  -- every count, a request of the Rust side returns. The message has the header that the Rust side
  -- copied for a later block, if it did, and else a new one of the method and the URI, with the
  -- payload behind it.
  pub xbd_gcoap_req_send_lem :
      (addr uri : Bytes) (method : ℕ) (text : Bytes) (blockwise : Bool) (idx : ℕ) (s : State)
      → NotificationFits env
      → (header_of (copied_header blockwise idx s) method uri text).1 + length text
        ≤ env.pdu_buf_size
      → Returns
          (λ _ t.
            Sent
              (carrying text (header_of (copied_header blockwise idx s) method uri text).0)
              ((header_of (copied_header blockwise idx s) method uri text).1 + length text)
              addr
              s
              t)
          (xbd_gcoap_req_send env addr uri method text blockwise idx s)
  unfolding xbd_gcoap_req_send from_header
  xbd_gcoap_req_send_lem addr uri method text blockwise idx s fits room =
      from_header_lem (copied_header blockwise idx s) addr uri method text blockwise idx s fits room

  payload_overruns :
      (pdu : Pdu) (hdr_len c : ℕ) (cs addr : Bytes) (u : State)
      → env.pdu_buf_size < hdr_len + suc (length cs)
      → send_payload env pdu hdr_len (c ∷ cs) addr u ≡ none
  unfolding send_payload copy_payload
  payload_overruns pdu hdr_len c cs addr u h =
      let e : leb (hdr_len + suc (length cs)) env.pdu_buf_size ≡ false = ground arith in rw e refl

  overrun_lem :
      (copied addr uri : Bytes) (method c : ℕ) (cs : Bytes) (blockwise : Bool) (idx : ℕ) (s : State)
      → env.pdu_buf_size < (header_of copied method uri (c ∷ cs)).1 + suc (length cs)
      → from_header copied addr uri method (c ∷ cs) blockwise idx s ≡ none
  unfolding from_header header_for
  overrun_lem [] addr uri method c cs true idx s h = payload_overruns _ _ c cs addr _ h
  overrun_lem [] addr uri method c cs false idx s h = payload_overruns _ _ c cs addr _ h
  overrun_lem (x ∷ xs) addr uri method c cs true idx s h = payload_overruns _ _ c cs addr _ h
  overrun_lem (x ∷ xs) addr uri method c cs false idx s h = payload_overruns _ _ c cs addr _ h

  -- A payload that does not fit the buffer behind the header is copied past its end.
  pub xbd_gcoap_req_overruns :
      (addr uri : Bytes) (method c : ℕ) (cs : Bytes) (blockwise : Bool) (idx : ℕ) (s : State)
      → env.pdu_buf_size
        < (header_of (copied_header blockwise idx s) method uri (c ∷ cs)).1 + suc (length cs)
      → xbd_gcoap_req_send env addr uri method (c ∷ cs) blockwise idx s ≡ none
  unfolding xbd_gcoap_req_send from_header
  xbd_gcoap_req_overruns addr uri method c cs blockwise idx s h =
      overrun_lem (copied_header blockwise idx s) addr uri method c cs blockwise idx s h
