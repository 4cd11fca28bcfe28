-- ===== src/Gcoap/Client/Command/Message.antt =====
-- examples/xbd-net/modules/minerva_gcoap/client.c: the packet of a request and `_send`.
use studio.Base.{
  ℕ, ◌+◌, ◌≤◌, Bool, true, false, some, List, [], ◌∷◌, ◌==◌, length, leb, if◌then◌else◌, Bytes,
  pure, Returns, Returns-map, Returns-bind, Returns-then, ◌>>◌, calls, ◌≡◌, refl, puts, printf, num,
}
use studio.Gcoap.{
  MsgType, set_type, payload, finish_none, finish_payload, add_proxy_uri, add_format_text, Pdu, Env,
  State, say,
}
use studio.Gcoap.Server.{notify_observers, notification}
use studio.Gcoap.Server.Stats.{Notifies, notify_observers_lem}
use studio.Gcoap.Client.{kept_path, empty, send}
use studio.Gcoap.Client.Send.{target, Sends, send_lem}
use studio.Gcoap.Same.{SameVars}
use studio.Gcoap.Client.Command.{with_options, send_message, send_payload, send_prepared}

-- The options in the order they are added: a text has a format, and a proxy gets the URI.
abbrev pub packet : Bytes → Bool → Bytes → Pdu → Pdu
packet [] false uri pdu = finish_none ∷ pdu
packet [] true uri pdu = finish_none ∷ add_proxy_uri uri ∷ pdu
packet (c ∷ cs) false uri pdu = finish_payload ∷ add_format_text ∷ pdu
packet (c ∷ cs) true uri pdu = finish_payload ∷ add_proxy_uri uri ∷ add_format_text ∷ pdu

with_options-packet :
    (text : Bytes) (proxied : Bool) (uri : Bytes) (pdu : Pdu)
    → with_options (if empty text then false else true) proxied uri pdu
      ≡ packet text proxied uri pdu
unfolding with_options
with_options-packet [] false uri pdu = refl
with_options-packet [] true uri pdu = refl
with_options-packet (c ∷ cs) false uri pdu = refl
with_options-packet (c ∷ cs) true uri pdu = refl

module _ (env : Env) where
  -- The digits of every count have room in a notification.
  abbrev pub NotificationFits : Type 0
  NotificationFits = (n : ℕ) → length (env.fmt_u16_dec n) ≤ env.room notification

  -- The line that announces a message.
  abbrev pub announced : ℕ → State → State
  announced len s = record s {
    log =
        printf "gcoap_cli: sending msg ID %u, %u bytes\n" (num (env.id_of s.log) ∷ num len ∷ [])
        ∷ s.log;
  }

  -- After a send, the observers are notified exactly if bytes were sent.
  abbrev pub Follows : Bool → State → State → Type 0
  Follows true u t = calls t.log ≡ calls u.log
  Follows false u t = Notifies env (env.observers u.log) u t

  -- A message must have been sent as `send` does, and the observers notified after it.
  abbrev pub Delivers : Pdu → ℕ → Bytes → State → ℕ → State → Type 0
  Delivers pdu len addr s r t =
      (r ≡ 0)
      × (n : ℕ) × (u : State) × Sends env (target env addr (announced len s)) pdu len
          (announced len s) n u
      × Follows (n == 0) u t

  follow_lem :
      (nothing : Bool) (u : State)
      → NotificationFits
      → Returns
          (λ (r : ℕ) (t : State). (r ≡ 0) × Follows nothing u t)
          ((do
            if nothing then say (puts "gcoap_cli: msg send failed") else notify_observers env
            pure 0)
            u)
  follow_lem true u fits = (refl, refl)
  follow_lem false u fits =
      Returns-then (notify_observers env) (λ _ t. Notifies env (env.observers u.log) u t)
        (λ r t. (r ≡ 0) × Follows false u t) (pure 0) u
        (notify_observers_lem env u (fits u.req_count)) (λ _ t h. (refl, h))

  send_message_lem :
      (pdu : Pdu) (len : ℕ) (addr : Bytes) (s : State)
      → NotificationFits
      → Returns (Delivers pdu len addr s) (send_message env pdu len addr s)
  unfolding send_message
  send_message_lem pdu len addr s fits =
      Returns-bind (send env pdu len addr)
        (Sends env (target env addr (announced len s)) pdu len (announced len s))
        (Delivers pdu len addr s)
        (λ n. do
          if n == 0 then say (puts "gcoap_cli: msg send failed") else notify_observers env
          pure 0)
        (announced len s) (send_lem env pdu len addr (announced len s))
        (λ n u h.
          Returns-map (λ r t. (r ≡ 0) × Follows (n == 0) u t) (Delivers pdu len addr s)
            ((do
              if n == 0 then say (puts "gcoap_cli: msg send failed") else notify_observers env
              pure 0)
              u)
            (λ r t q. (q.0, n, u, h, q.1)) (follow_lem (n == 0) u fits))

  -- A packet with its payload, by whether that is empty, and whether it fits: one that does not fit
  -- is not sent, with status 1.
  abbrev pub Carries : Bool → Bool → Pdu → Bytes → Bytes → State → ℕ → State → Type 0
  Carries true fits pdu text addr s r t = Delivers pdu (env.finish_len pdu) addr s r t
  Carries false true pdu text addr s r t =
      Delivers (payload text ∷ pdu) (env.finish_len pdu + length text) addr s r t
  Carries false false pdu text addr s r t = (r ≡ 1) × (calls t.log ≡ calls s.log) × SameVars s t

  carries_lem :
      (blank fits : Bool) (pdu : Pdu) (text addr : Bytes) (s : State)
      → NotificationFits
      → Returns (Carries blank fits pdu text addr s) (
          (if blank
              then send_message env pdu (env.finish_len pdu) addr
              else if fits
              then send_message env (payload text ∷ pdu) (env.finish_len pdu + length text) addr
              else do say (puts "gcoap_cli: msg buffer too small"); pure 1)
            s)
  carries_lem true fits pdu text addr s h = send_message_lem pdu (env.finish_len pdu) addr s h
  carries_lem false true pdu text addr s h =
      send_message_lem (payload text ∷ pdu) (env.finish_len pdu + length text) addr s h
  carries_lem false false pdu text addr s h = (refl, refl, (refl, refl, refl, refl, refl, refl))

  -- The packet of a request up to its payload, for the text of its path or URI.
  abbrev pub options : MsgType → Bytes → Bool → Bytes → Pdu → Pdu
  options t text proxied uri pdu = packet text proxied uri (set_type t ∷ pdu)

  -- What a request must have done, once its path is known.
  abbrev pub Issues : MsgType → Bytes → Bytes → Bytes → ℕ → Pdu → State → ℕ → State → Type 0
  Issues t addr text uri uri_len pdu s r u =
      let p = options t text s.proxied uri pdu in
      Carries (empty text) (leb (length text) (env.room p)) p text addr
        (record s { last_req_path = kept_path uri uri_len }) r u

  pub issues_lem :
      (argv : List Bytes) (t : MsgType) (addr text uri : Bytes) (uri_len : ℕ) (pdu : Pdu)
      (s : State)
      → NotificationFits
      → Returns
          (Issues t addr text uri uri_len pdu s)
          (send_prepared env argv t addr text (some (uri, uri_len, pdu)) s)
  unfolding send_prepared send_payload
  issues_lem argv t addr text uri uri_len pdu s h =
      let p = options t text s.proxied uri pdu in
      rw (with_options-packet text s.proxied uri (set_type t ∷ pdu)) (
        carries_lem (empty text) (leb (length text) (env.room p)) p text addr
          (record s { last_req_path = kept_path uri uri_len }) h)
