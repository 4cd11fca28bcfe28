-- ===== src/Gcoap/Server/Stats.antt =====
-- server.c: what the handlers answer, and what they keep.
use studio.Base.{
  ℕ, suc, ◌+◌, ◌-◌, ◌%◌, ◌^◌, ◌≤◌, ◌<◌, Bool, true, false, some, [], ◌∷◌, ◌++◌, length, replicate,
  leb, if◌then◌else◌, Bytes, Returns, Returns-map, calls, ◌≡◌, refl, ◌∙◌, ap, inl, inr, arith,
  Bool-cases,
}
use studio.Libc.{strtoul, digits_value}
use studio.Libc.Digits.{AllDigits, strtoul_digits}
use studio.Gcoap.{
  Code, changed, bad_request, internal_server_error, resp_init, finish_payload, payload, Pdu,
  obs_send, ObsInit, obs_ok, obs_unused, obs_err, Env, State,
}
use studio.Gcoap.Same.{SameVars}
use studio.Gcoap.Server.{
  Flag, coap_get, coap_post, coap_put, other, respond, put_payload, text_response, stats_get,
  stats_put, by_method, stats_handler, riot_stats_handler_minerva, riot_board_handler_minerva,
  notification, notify, notify_observers,
}

-- Nothing but the log and the count has changed, and no call was made.
abbrev pub Quiet : State → State → Type 0
Quiet s t =
    (calls t.log ≡ calls s.log)
    × (t.server_init_done ≡ s.server_init_done)
    × (t.proxied ≡ s.proxied)
    × (t.proxy_remote ≡ s.proxy_remote)
    × (t.proxy_uri ≡ s.proxy_uri)
    × (t.last_req_path ≡ s.last_req_path)

module _ (env : Env) where
  abbrev pub simple : Code → ℕ × Pdu
  simple code = (env.response_len code, finish_payload ∷ resp_init code ∷ [])

  -- The answer to an update, by whether its payload is short enough.
  abbrev pub Updates : Bool → Bytes → State → ℕ × Pdu → State → Type 0
  Updates true text s r t =
      (r ≡ simple changed)
      × (t.req_count ≡ strtoul (text ++ replicate (6 - length text) 0) % 2 ^ 16)
      × Quiet s t
  Updates false text s r t = (r ≡ simple bad_request) × (t.req_count ≡ s.req_count) × Quiet s t

  -- The answer that gives a count.
  abbrev pub text_answer : ℕ → ℕ × Pdu
  text_answer n = (
    env.finish_len text_response + length (env.fmt_u16_dec n),
    payload (env.fmt_u16_dec n) ∷ text_response,
  )

  -- The answer to a request of each method.
  abbrev pub Answers : Flag → Bytes → State → ℕ × Pdu → State → Type 0
  Answers coap_get text s r t =
      (r ≡ text_answer s.req_count) × (t.req_count ≡ s.req_count) × Quiet s t
  Answers coap_post text s r t = Updates (leb (length text) 5) text s r t
  Answers coap_put text s r t = Updates (leb (length text) 5) text s r t
  Answers (other n) text s r t = (r ≡ (0, [])) × (t.req_count ≡ s.req_count) × Quiet s t

  put_payload_fits :
      (pdu : Pdu) (text : Bytes)
      → length text ≤ env.room pdu
      → put_payload env pdu text ≡ some (payload text ∷ pdu)
  unfolding put_payload
  put_payload_fits pdu text h =
      let e : leb (length text) (env.room pdu) ≡ true = ground arith in rw e refl

  stats_put_lem :
      (text : Bytes) (s s' : State)
      → Quiet s s'
      → s'.req_count ≡ s.req_count
      → Returns (Updates (leb (length text) 5) text s) (stats_put env text s')
  unfolding stats_put respond
  stats_put_lem text s s' q e = elim (Bool-cases (leb (length text) 5)) [
    | inl f ↦ rw f (refl, refl, q)
    | inr f ↦ rw f (refl, e, q)
  ]

  by_method_lem :
      (flag : Flag) (text : Bytes) (s s' : State)
      → Quiet s s'
      → s'.req_count ≡ s.req_count
      → length (env.fmt_u16_dec s.req_count) ≤ env.room text_response
      → Returns (Answers flag text s) (by_method env flag text s')
  unfolding by_method stats_get
  by_method_lem coap_get text s s' q e h =
      rw (e, put_payload_fits text_response (env.fmt_u16_dec s.req_count) h) (refl, refl, q)
  by_method_lem coap_post text s s' q e h = stats_put_lem text s s' q e
  by_method_lem coap_put text s s' q e h = stats_put_lem text s s' q e
  by_method_lem (other n) text s s' q e h = (refl, e, q)

  -- For a packet with room for the count's digits the handler of `/cli/stats` returns, having
  -- written nothing outside the packet. GET answers the count as text. POST and PUT of at most 5
  -- bytes set the count to the number that they write, modulo 2 ^ 16, and answer 2.04; a longer
  -- payload answers 4.00. Another method is answered by length 0. The count changes in no other
  -- case, and none of the other variables changes.
  pub stats_handler_lem :
      (flag : Flag) (text : Bytes) (s : State)
      → length (env.fmt_u16_dec s.req_count) ≤ env.room text_response
      → Returns (Answers flag text s) (stats_handler env flag text s)
  unfolding stats_handler
  stats_handler_lem flag text s h =
      by_method_lem flag text s _ (refl, refl, refl, refl, refl, refl) refl h

  -- What `fmt_u16_dec` promises: at most 5 decimal digits, at least one, that write the number.
  abbrev pub WritesDecimal : Type 0
  WritesDecimal =
      (n : ℕ)
      → n < 2 ^ 16
      → (c : ℕ) × (ds : Bytes) × (env.fmt_u16_dec n ≡ c ∷ ds)
        × AllDigits (c ∷ ds)
        × (digits_value 0 (c ∷ ds) ≡ n)
        × (length ds ≤ 4)

  Updates-count :
      (n : ℕ) (s : State) (r : ℕ × Pdu) (t : State)
      → n < 2 ^ 16
      → WritesDecimal
      → Updates (leb (length (env.fmt_u16_dec n)) 5) (env.fmt_u16_dec n) s r t
      → t.req_count ≡ n
  Updates-count n s r t h w u =
      let (c, ds, e, digits, value, short) = w n h in
      let fits : leb (suc (length ds)) 5 ≡ true = ground arith in
      let u' = rw (e, fits) at u in
      u'.1
      ∙ ap (λ v. v % 2 ^ 16)
          (strtoul_digits c ds (6 - suc (length ds)) digits (omega (arith, value)) ∙ value)
      ∙ omega arith

  stats_update_lem :
      (text : Bytes) (s : State)
      → Returns (Updates (leb (length text) 5) text s) (stats_handler env coap_put text s)
  unfolding stats_handler by_method
  stats_update_lem text s = stats_put_lem text s _ (refl, refl, refl, refl, refl, refl) refl

  reads_back :
      (n : ℕ) (t : State)
      → t.req_count ≡ n
      → length (env.fmt_u16_dec n) ≤ env.room text_response
      → Returns (λ r _. r ≡ text_answer n) (stats_handler env coap_get [] t)
  reads_back n t e room =
      Returns-map (Answers coap_get [] t) (λ r _. r ≡ text_answer n)
        (stats_handler env coap_get [] t) (λ r u h. h.0 ∙ ap text_answer e)
        (stats_handler_lem coap_get [] t (rw e room))

  -- A PUT of the digits of `n` is read back: the GET that follows answers the same text.
  pub stats_put-get :
      (n : ℕ) (s : State)
      → n < 2 ^ 16
      → WritesDecimal
      → length (env.fmt_u16_dec n) ≤ env.room text_response
      → Returns
          (λ _ t. Returns (λ r _. r ≡ text_answer n) (stats_handler env coap_get [] t))
          (stats_handler env coap_put (env.fmt_u16_dec n) s)
  stats_put-get n s h w room =
      Returns-map (Updates (leb (length (env.fmt_u16_dec n)) 5) (env.fmt_u16_dec n) s)
        (λ _ t. Returns (λ r _. r ≡ text_answer n) (stats_handler env coap_get [] t))
        (stats_handler env coap_put (env.fmt_u16_dec n) s)
        (λ r t u. reads_back n t (Updates-count n s r t h w u) room)
        (stats_update_lem (env.fmt_u16_dec n) s)

  -- The handler that the Rust side calls answers as `_stats_handler` does.
  pub riot_stats_handler_lem :
      (flag : Flag) (text : Bytes) (s : State)
      → length (env.fmt_u16_dec s.req_count) ≤ env.room text_response
      → Returns (Answers flag text s) (riot_stats_handler_minerva env flag text s)
  unfolding riot_stats_handler_minerva stats_handler
  riot_stats_handler_lem flag text s h =
      by_method_lem flag text s _ (refl, refl, refl, refl, refl, refl) refl h

  -- The board's name is answered whole if it fits, and nothing is written outside the packet; if it
  -- does not fit the answer is 5.00. Nothing but the log changes.
  pub riot_board_handler_lem :
      (board : Bytes) (s : State)
      → Returns
          (λ r t.
            (r ≡ (
              if leb (length board) (env.room text_response)
              then (env.finish_len text_response + length board, payload board ∷ text_response)
              else simple internal_server_error))
            × (t.req_count ≡ s.req_count)
            × Quiet s t)
          (riot_board_handler_minerva env board s)
  unfolding riot_board_handler_minerva put_payload respond
  riot_board_handler_lem board s = elim (Bool-cases (leb (length board) (env.room text_response))) [
    | inl e ↦ rw e (refl, refl, (refl, refl, refl, refl, refl, refl))
    | inr e ↦ rw e (refl, refl, (refl, refl, refl, refl, refl, refl))
  ]

  -- The notification of the observers, by the answer of `gcoap_obs_init`.
  abbrev pub Notifies : ObsInit → State → State → Type 0
  Notifies obs_ok s t =
      (calls t.log
        ≡ obs_send (payload (env.fmt_u16_dec s.req_count) ∷ notification)
            (env.finish_len notification + length (env.fmt_u16_dec s.req_count))
          ∷ calls s.log)
      × SameVars s t
  Notifies obs_unused s t = t ≡ s
  Notifies obs_err s t = t ≡ s

  notify_lem :
      (found : ObsInit) (s : State)
      → length (env.fmt_u16_dec s.req_count) ≤ env.room notification
      → Returns (λ _ t. Notifies found s t) (notify env found s)
  unfolding notify
  notify_lem obs_ok s h =
      rw (put_payload_fits notification (env.fmt_u16_dec s.req_count) h) (refl, (refl, refl, refl, refl, refl, refl))
  notify_lem obs_unused s h = refl
  notify_lem obs_err s h = refl

  -- If the notification has room for the count's digits, one notification with the count is sent if
  -- there is an observer, and nothing is done if there is none or gcoap fails. No variable changes.
  pub notify_observers_lem :
      (s : State)
      → length (env.fmt_u16_dec s.req_count) ≤ env.room notification
      → Returns (λ _ t. Notifies (env.observers s.log) s t) (notify_observers env s)
  unfolding notify_observers
  notify_observers_lem s h = notify_lem (env.observers s.log) s h
