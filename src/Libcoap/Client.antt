-- ===== src/Libcoap/Client.antt =====
-- examples/xbd-net/modules/minerva_libcoap: `client_coap_init` (client-coap.c) and the shell's command
-- (client-coap.h), with the loop of the client in the parent.
pub mod Session
pub mod Outcome
pub mod Cleanup
use studio.Base.{
  ℕ, zero, suc, ◌+◌, ◌-◌, ◌*◌, ◌%◌, ◌^◌, Bool, true, false, not, ◌||◌, Option, none, some, List, [],
  ◌∷◌, length, get_elem?, take, ltb, leb, ◌==◌, if◌then◌else◌, ℤ, pos, negsuc, u16, Bytes, codes,
  str_eq, Prog, pure, lift, gets, modify, ◌>>=◌, ◌>>◌, Event, puts, printf, call, str, Log,
}
use studio.Libc.{atoi}
use studio.Libc.Decimal.{decimal}
use studio.Libcoap.{
  Uri, Proto, udp, tcp, dtls, Psk, Call, startup, set_log_level, new_context, set_block_mode,
  new_client_session, register_response_handler, register_nack_handler, pdu_init, uri_into_options,
  add_optlist_pdu, send, delete_optlist, session_release, free_context, cleanup, Env, State,
  default_uri, say, ask, warn, resolve_address, wait_loop,
}

-- The static array for the server's name, which was cleared before.
unfoldable pub client_sni_of : Bytes → Bytes
client_sni_of [] = codes "localhost"
client_sni_of (c ∷ cs) = take 255 (c ∷ cs)

-- The parameters of a DTLS session.
unfoldable pub dtls_psk : Bytes → Psk
unfolding client_sni_of
dtls_psk host = record {
  client_sni = client_sni_of host;
  identity = codes "user_abc";
  key = codes "secretPSK";
}

module _ (env : Env) where
  -- From the computation of the waiting time to the end of the loop.
  send_request : ℕ → ℕ → Prog State Unit
  send_request fuel pdu = do
    wait_ms ← gets (λ s. s.wait_seconds * 1000 % 2 ^ 32)
    sent ← ask (send pdu) env.sent
    if sent then wait_loop env fuel wait_ms else warn (puts "Failed to send PDU")

  -- The default leisure counts for a group.
  set_wait : Bool → Prog State Unit
  set_wait false = pure tt
  set_wait true = modify (λ s. record s { wait_seconds = (env.leisure s.log + 1) % 2 ^ 32 })

  transmit : ℕ → ℕ → Prog State Unit
  transmit fuel pdu = do is_mcast ← gets (λ s. s.is_mcast); set_wait is_mcast; send_request fuel pdu

  add_options : ℕ → ℕ → Option ℕ → Prog State Unit
  add_options fuel pdu none = transmit fuel pdu
  add_options fuel pdu (some opts) = do
    (opts', added) ← ask (add_optlist_pdu pdu opts) env.added
    modify (λ s. record s { optlist = opts' })
    if added then transmit fuel pdu else warn (puts "Failed to add options to PDU")

  with_pdu : ℕ → Option ℕ → Prog State Unit
  with_pdu fuel none = warn (puts "Failed to create PDU")
  with_pdu fuel (some pdu) = do
    (opts, made) ← ask uri_into_options env.options
    modify (λ s. record s { optlist = opts })
    if made then add_options fuel pdu opts else warn (puts "Failed to create options")

  -- The request on a session.
  pub request : ℕ → Option ℕ → Prog State Unit
  request fuel none = warn (puts "Failed to create session")
  request fuel (some ses) = do
    say (call register_response_handler)
    say (call register_nack_handler)
    is_mcast ← gets (λ s. s.is_mcast)
    pdu ← ask (pdu_init is_mcast) env.pdu
    with_pdu fuel pdu

  -- The session for the scheme of the URI.
  pub make_session : Uri → Bytes → Prog State (Option ℕ)
  make_session uri dst =
      if uri.scheme == env.scheme_coap
      then ask (new_client_session udp dst none) env.session
      else if uri.scheme == env.scheme_coap_tcp
      then ask (new_client_session tcp dst none) env.session
      else ask (new_client_session dtls dst (some (dtls_psk uri.host))) env.session

  -- The result, here and below, is what `session` is at the label `fail`.
  with_context : ℕ → Uri → Bytes → Option ℕ → Prog State (Option ℕ)
  with_context fuel uri dst none = do warn (puts "Failed to initialize context"); pure none
  with_context fuel uri dst (some ctx) = do
    say (call set_block_mode)
    ses ← make_session uri dst
    request fuel ses
    pure ses

  with_address : ℕ → Uri → Option Bytes → Prog State (Option ℕ)
  with_address fuel uri none = do
    warn (printf "Failed to resolve address %*.*s\n" (str uri.host ∷ []))
    pure none
  with_address fuel uri (some dst) = do
    ctx ← ask new_context env.context
    modify (λ s. record s { main_coap_context = ctx })
    with_context fuel uri dst ctx

  -- The buffers for the port and the host have 8 and 100 bytes.
  with_uri : ℕ → Bytes → Option Uri → Prog State (Option ℕ)
  with_uri fuel coap_uri none = do
    warn (printf "Failed to parse uri %s\n" (str coap_uri ∷ []))
    pure none
  with_uri fuel coap_uri (some uri) = do
    found ← resolve_address env (take 99 uri.host) (take 7 (decimal uri.port)) (2 ^ uri.scheme)
    with_address fuel uri found

  -- Everything from the label `fail` on.
  pub finish : Option ℕ → Prog State Unit
  finish ses = do
    modify (λ s. record s { quit = false })
    opts ← gets (λ s. s.optlist)
    say (call (delete_optlist opts))
    modify (λ s. record s { optlist = none })
    say (call (session_release ses))
    ctx ← gets (λ s. s.main_coap_context)
    say (call (free_context ctx))
    modify (λ s. record s { main_coap_context = none })
    say (call cleanup)

  run_client : ℕ → Bytes → Prog State Unit
  run_client fuel coap_uri = do
    say (printf "@@ client_coap_init(): coap_uri: %s\n" (str coap_uri ∷ []))
    say (call startup)
    say (call set_log_level)
    ses ← with_uri fuel coap_uri (env.split_uri coap_uri)
    finish ses

  pub client_coap_init : ℕ → List Bytes → Prog State Unit
  client_coap_init fuel argv =
      if ltb 1 (length argv)
      then (do coap_uri ← lift (get_elem? argv 1); run_client fuel coap_uri)
      else run_client fuel default_uri

  pub libcoap_cli_cmd : ℕ → List Bytes → Prog State ℕ
  libcoap_cli_cmd fuel argv =
      if ltb (length argv) 2
      then (do
        name ← lift (get_elem? argv 0)
        say (printf "usage: %s <uri> (e.g. %s)\n" (str name ∷ str default_uri ∷ []))
        pure 0)
      else do client_coap_init fuel argv; pure 0

  null_text : Option Bytes → Bytes
  null_text none = codes "(null)"
  null_text (some uri) = uri

  test_argv : Option Bytes → List Bytes
  test_argv none = codes "libcoap" ∷ []
  test_argv (some uri) = codes "libcoap" ∷ uri ∷ []

  -- A failed `assert` is `none`.
  pub test_libcoap_req : ℕ → Bytes → Option Bytes → Prog State ℕ
  test_libcoap_req fuel req uri =
      if str_eq req (codes "get")
      then (do
        say (printf "@@-------- test_libcoap_req(): libcoap %s\n" (str (null_text uri) ∷ []))
        libcoap_cli_cmd fuel (test_argv uri))
      else lift none
