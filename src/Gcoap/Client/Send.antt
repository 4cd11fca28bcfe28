-- ===== src/Gcoap/Client/Send.antt =====
-- examples/xbd-net/modules/minerva_gcoap/client.c: where `_send` sends to, and what it counts.
use studio.Base.{
  ℕ, ◌+◌, ◌%◌, ◌^◌, Bool, true, false, Option, none, some, ◌∷◌, ltb, if◌then◌else◌, Bytes, pure,
  gets, modify, ◌>>=◌, ◌>>◌, Returns, calls, ◌≡◌, refl, call,
}
use studio.Lwip.Sock.{Endpoint}
use studio.Gcoap.{Pdu, req_send, Env, State}
use studio.Gcoap.Client.{with_port, send_on, send_found, send}

-- Nothing but the log and the count has changed.
abbrev pub SameButCount : State → State → Type 0
SameButCount s t =
    (t.server_init_done ≡ s.server_init_done)
    × (t.proxied ≡ s.proxied)
    × (t.proxy_remote ≡ s.proxy_remote)
    × (t.proxy_uri ≡ s.proxy_uri)
    × (t.last_req_path ≡ s.last_req_path)

-- The count after a request of which so many bytes were sent.
abbrev pub counted : ℕ → ℕ → ℕ
counted bytes_sent count = if ltb 0 bytes_sent then (count + 1) % 2 ^ 16 else count

module _ (env : Env) where
  abbrev pub found_target : Bool × Endpoint → Option Endpoint
  found_target (false, ep) = none
  found_target (true, ep) = some (with_port env ep)

  -- The endpoint that a message is sent to, for a state and the address of the command line.
  abbrev pub target : Bytes → State → Option Endpoint
  target addr s =
      if s.proxied
      then some s.proxy_remote
      else found_target (env.name2ep s.log addr env.old_remote)

  -- What a send must have done.
  abbrev pub Sends : Option Endpoint → Pdu → ℕ → State → ℕ → State → Type 0
  Sends none pdu len s r t =
      (r ≡ 0) × (calls t.log ≡ calls s.log) × (t.req_count ≡ s.req_count) × SameButCount s t
  Sends (some ep) pdu len s r t =
      (r ≡ env.sent (call (req_send pdu len ep) ∷ s.log))
      × (calls t.log ≡ req_send pdu len ep ∷ calls s.log)
      × (t.req_count ≡ counted (env.sent (call (req_send pdu len ep) ∷ s.log)) s.req_count)
      × SameButCount s t

  count_lem :
      (any : Bool) (bytes_sent : ℕ) (s : State)
      → Returns
          (λ (r : ℕ) (t : State).
            (r ≡ bytes_sent)
            × (calls t.log ≡ calls s.log)
            × (t.req_count ≡ (if any then (s.req_count + 1) % 2 ^ 16 else s.req_count))
            × SameButCount s t)
          ((do
            if any
                then modify (λ s'. record s' { req_count = (s'.req_count + 1) % 2 ^ 16 })
                else pure tt
            pure bytes_sent)
            s)
  count_lem true bytes_sent s = (refl, refl, refl, (refl, refl, refl, refl, refl))
  count_lem false bytes_sent s = (refl, refl, refl, (refl, refl, refl, refl, refl))

  send_on_lem :
      (pdu : Pdu) (len : ℕ) (ep : Endpoint) (s : State)
      → Returns (Sends (some ep) pdu len s) (send_on env pdu len ep s)
  unfolding send_on
  send_on_lem pdu len ep s =
      let l = call (req_send pdu len ep) ∷ s.log in
      count_lem (ltb 0 (env.sent l)) (env.sent l) (record s { log = l })

  pub send_found_lem :
      (pdu : Pdu) (len : ℕ) (found : Bool × Endpoint) (s : State)
      → Returns (Sends (found_target found) pdu len s) (send_found env pdu len found s)
  unfolding send_found
  send_found_lem pdu len (false, ep) s = (refl, refl, refl, (refl, refl, refl, refl, refl))
  send_found_lem pdu len (true, ep) s = send_on_lem pdu len (with_port env ep) s

  by_proxy_lem :
      (proxied : Bool) (pdu : Pdu) (len : ℕ) (addr : Bytes) (s : State)
      → Returns
          (Sends
            (if proxied
              then some s.proxy_remote
              else found_target (env.name2ep s.log addr env.old_remote))
            pdu
            len
            s)
          ((if proxied
              then (do remote ← gets (λ s'. s'.proxy_remote); send_on env pdu len remote)
              else do
                found ← gets (λ s'. env.name2ep s'.log addr env.old_remote)
                send_found env pdu len found)
            s)
  by_proxy_lem true pdu len addr s = send_on_lem pdu len s.proxy_remote s
  by_proxy_lem false pdu len addr s = send_found_lem pdu len _ s

  -- `_send` returns. With a proxy the message goes to it, else to the endpoint that the address
  -- names, with the default port if that has none; an address that is not found sends nothing and
  -- returns 0. The count of requests grows by 1, modulo 2 ^ 16, exactly if bytes were sent, and no
  -- other variable changes.
  pub send_lem :
      (pdu : Pdu) (len : ℕ) (addr : Bytes) (s : State)
      → Returns (Sends (target addr s) pdu len s) (send env pdu len addr s)
  unfolding send
  send_lem pdu len addr s = by_proxy_lem s.proxied pdu len addr s
