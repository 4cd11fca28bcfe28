-- ===== src/Libcoap/Client/Session.antt =====
-- examples/xbd-net/modules/minerva_libcoap/client-coap.c: what is done on a session, from the
-- handlers to the end of the loop.
use studio.Base.{
  String, ℕ, zero, suc, ◌+◌, ◌*◌, ◌%◌, ◌^◌, ◌≤◌, ◌<◌, Bool, true, false, Option, none, some, List,
  [], ◌∷◌, Made, Made-none, Made-one, Made-trans, if◌then◌else◌, Prog, Returns, Returns-map, ◌>>◌,
  calls, Log, call, puts, ◌≡◌, refl, ◌∙◌, arith,
}
use studio.Libcoap.{
  Call, register_response_handler, register_nack_handler, pdu_init, uri_into_options,
  add_optlist_pdu, send, io_process, Env, State, warn, wait_loop,
}
use studio.Libcoap.Client.{send_request, set_wait, transmit, add_options, with_pdu, request}
use studio.Libcoap.Wait.{Progress, processed, Ends, wait_loop_lem}

-- The calls that a request makes on its session.
abbrev pub is_work : Call → Bool
is_work register_response_handler = true
is_work register_nack_handler = true
is_work (pdu_init non) = true
is_work uri_into_options = true
is_work (add_optlist_pdu pdu opts) = true
is_work (send pdu) = true
is_work io_process = true
is_work _ = false

-- The waiting time is not 0, and is at most the largest leisure and a second.
abbrev pub WaitFits : State → Type 0
WaitFits s = (0 < s.wait_seconds) × (s.wait_seconds ≤ 2 ^ 16)

-- Such calls were made, and the context stayed.
abbrev pub Works : State → State → Type 0
Works s t =
    Made is_work (calls s.log) (calls t.log)
    × (t.main_coap_context ≡ s.main_coap_context)
    × WaitFits t

-- Some calls, and what follows them.
Works-after :
    (s s' t : State)
    → Made is_work (calls s.log) (calls s'.log)
    → s'.main_coap_context ≡ s.main_coap_context
    → Works s' t
    → Works s t
Works-after s s' t h m (k, n, w) =
    (Made-trans is_work (calls s.log) (calls s'.log) (calls t.log) h k, n ∙ m, w)

-- One call, and what follows it.
Works-step :
    (c : Call) (s s' t : State)
    → calls s'.log ≡ c ∷ calls s.log
    → is_work c ≡ true
    → s'.main_coap_context ≡ s.main_coap_context
    → Works s' t
    → Works s t
Works-step c s s' t e w m h = Works-after s s' t (c ∷ [], e, (w, tt)) m h

-- A request without a session makes no call.
abbrev pub Requests : Option ℕ → State → State → Type 0
Requests none s t =
    (calls t.log ≡ calls s.log) × (t.main_coap_context ≡ s.main_coap_context) × WaitFits t
Requests (some ses) s t = Works s t

module _ (env : Env) where
  waits_lem : (n : ℕ) (l : List Call) → Made is_work l (processed env n l)
  waits_lem zero l = Made-none is_work l
  waits_lem (suc n) l =
      Made-trans is_work l (io_process ∷ l) (processed env n (io_process ∷ l))
        (Made-one is_work io_process l refl) (waits_lem n (io_process ∷ l))

  -- The integer part of the default leisure has 16 bits.
  abbrev pub LeisureFits : Type 0
  LeisureFits = (l : Log Call) → env.leisure l < 2 ^ 16

-- The fuel is enough for the longest waiting time.
module _ (env : Env) (fuel : ℕ) (progress : Progress env) (leisure_fits : LeisureFits env)
    (enough : 2 ^ 16 * 1000 < fuel) where
  send_lem :
      (sent : Bool) (s : State)
      → WaitFits s
      → Returns
          (λ _ t. Works s t)
          ((if sent
              then wait_loop env fuel (s.wait_seconds * 1000 % 2 ^ 32)
              else warn (puts "Failed to send PDU"))
            s)
  send_lem false s w = (([], refl, tt), refl, w)
  send_lem true s w =
      let ms = s.wait_seconds * 1000 % 2 ^ 32 in
      Returns-map (λ _ t. Ends env ms s t) (λ _ t. Works s t) (wait_loop env fuel ms s)
        (λ _ t (n, _, q).
          let (cs, g, a) = waits_lem env n (calls s.log) in
          ((cs, q.0 ∙ g, a), q.1, (omega (arith, q.4, w.0), omega (arith, q.4, w.1))))
        (wait_loop_lem env fuel ms s progress (omega (arith, w.0, w.1))
          (omega (arith, w.0, w.1, enough)))

  send_request_lem :
      (pdu : ℕ) (s : State) → WaitFits s → Returns (λ _ t. Works s t) (send_request env fuel pdu s)
  unfolding send_request
  send_request_lem pdu s w =
      let s' = record s { log = call (send pdu) ∷ s.log } in
      Returns-map (λ _ t. Works s' t) (λ _ t. Works s t) _
        (λ _ t h. Works-step (send pdu) s s' t refl refl refl h) (send_lem (env.sent s'.log) s' w)

  set_wait_lem :
      (is_mcast : Bool) (pdu : ℕ) (s : State)
      → WaitFits s
      → Returns (λ _ t. Works s t) ((do set_wait env is_mcast; send_request env fuel pdu) s)
  unfolding set_wait
  set_wait_lem false pdu s w = send_request_lem pdu s w
  set_wait_lem true pdu s w =
      let s' = record s { wait_seconds = (env.leisure s.log + 1) % 2 ^ 32 } in
      Returns-map (λ _ t. Works s' t) (λ _ t. Works s t) (send_request env fuel pdu s')
        (λ _ t h. Works-after s s' t (Made-none is_work (calls s.log)) refl h)
        (send_request_lem pdu s'
          (omega (arith, leisure_fits s.log), omega (arith, leisure_fits s.log)))

  transmit_lem :
      (pdu : ℕ) (s : State) → WaitFits s → Returns (λ _ t. Works s t) (transmit env fuel pdu s)
  unfolding transmit
  transmit_lem pdu s = set_wait_lem s.is_mcast pdu s

  -- What follows a call that gave a list of options and may have failed.
  after_lem :
      (ok : Bool) (text : String) (k : Prog State Unit) (s : State)
      → WaitFits s
      → Returns (λ _ t. Works s t) (k s)
      → Returns (λ _ t. Works s t) ((if ok then k else warn (puts text)) s)
  after_lem true text k s w h = h
  after_lem false text k s w h = (([], refl, tt), refl, w)

  add_options_lem :
      (pdu : ℕ) (opts : Option ℕ) (s : State)
      → WaitFits s
      → Returns (λ _ t. Works s t) (add_options env fuel pdu opts s)
  unfolding add_options
  add_options_lem pdu none s w = transmit_lem pdu s w
  add_options_lem pdu (some opts) s w =
      let r = env.added (call (add_optlist_pdu pdu opts) ∷ s.log) in
      let s' = record s { optlist = r.0; log = call (add_optlist_pdu pdu opts) ∷ s.log } in
      Returns-map (λ _ t. Works s' t) (λ _ t. Works s t) _
        (λ _ t h. Works-step (add_optlist_pdu pdu opts) s s' t refl refl refl h)
        (after_lem r.1 "Failed to add options to PDU" (transmit env fuel pdu) s' w
          (transmit_lem pdu s' w))

  with_pdu_lem :
      (found : Option ℕ) (s : State)
      → WaitFits s
      → Returns (λ _ t. Works s t) (with_pdu env fuel found s)
  unfolding with_pdu
  with_pdu_lem none s w = (([], refl, tt), refl, w)
  with_pdu_lem (some pdu) s w =
      let r = env.options (call uri_into_options ∷ s.log) in
      let s' = record s { optlist = r.0; log = call uri_into_options ∷ s.log } in
      Returns-map (λ _ t. Works s' t) (λ _ t. Works s t) _
        (λ _ t h. Works-step uri_into_options s s' t refl refl refl h)
        (after_lem r.1 "Failed to create options" (add_options env fuel pdu r.0) s' w
          (add_options_lem pdu r.0 s' w))

  pub request_lem :
      (ses : Option ℕ) (s : State)
      → WaitFits s
      → Returns (λ _ t. Requests ses s t) (request env fuel ses s)
  unfolding request
  request_lem none s w = (refl, refl, w)
  request_lem (some ses) s w =
      let s1 = record s { log = call register_response_handler ∷ s.log } in
      let s2 = record s { log = call register_nack_handler ∷ s1.log } in
      let s3 = record s { log = call (pdu_init s.is_mcast) ∷ s2.log } in
      Returns-map (λ _ t. Works s3 t) (λ _ t. Works s t) (with_pdu env fuel (env.pdu s3.log) s3)
        (λ _ t h. Works-step register_response_handler s s1 t refl refl refl (
          Works-step register_nack_handler s1 s2 t refl refl refl
            (Works-step (pdu_init s.is_mcast) s2 s3 t refl refl refl h)))
        (with_pdu_lem (env.pdu s3.log) s3 w)
