-- ===== src/Gcoap/Server.antt =====
-- examples/xbd-net/modules/minerva_gcoap/server.c: the resources, their encoder, and the start.
pub mod Count
pub mod Link
pub mod Stats
pub mod Start
use studio.Base.{
  ℕ, ◌+◌, ◌-◌, ◌%◌, ◌^◌, Bool, true, false, ◌&&◌, Option, none, some, List, [], ◌∷◌, ◌++◌, length,
  take, drop, replicate, ltb, leb, ◌==◌, if◌then◌else◌, ℤ, pos, negsuc, is_neg, Bytes, codes, Prog,
  pure, lift, gets, modify, ◌>>=◌, ◌>>◌, Event, puts, printf, call, num, int, str, Log, ◌≡◌, String,
}
use studio.Libc.{strtoul}
use studio.Gcoap.{
  Code, content, changed, bad_request, internal_server_error, Build, resp_init, obs_init,
  add_format_text, finish_payload, payload, Pdu, Call, credman_add, add_credential,
  register_listener, obs_send, ObsInit, obs_ok, obs_unused, obs_err, Env, State, say, ask,
}

-- A write of `text` at the offset `at`; outside the buffer it is undefined.
unfoldable pub write_at : Bytes → ℕ → Bytes → Option Bytes
write_at buf at text =
    if leb (at + length text) (length buf)
    then some (take at buf ++ text ++ drop (at + length text) buf)
    else none

-- `_link_params[pos]`
unfoldable pub link_params : ℕ → Option (Option Bytes)
link_params ℕ.zero = some (some (codes ";ct=0;rt=\"count\";obs"))
link_params (ℕ.suc ℕ.zero) = some none
link_params (ℕ.suc (ℕ.suc n)) = none

-- `if (buf) memcpy(buf + at, text, strlen(text))`
add_params : Option Bytes → ℕ → Bytes → Option (Option Bytes)
add_params none at text = some none
add_params (some buf) at text = elim (write_at buf at text) [ none ↦ none | some b ↦ some (some b) ]

-- With the parameters of the resource, if it has any; `maxlen - res` is a `size_t`.
with_params : Option Bytes → ℕ → ℕ → Option Bytes → Option (ℤ × Option Bytes)
with_params none res maxlen buf = some (pos res, buf)
with_params (some text) res maxlen buf =
    if ltb (length text) ((maxlen + 2 ^ 32 - res) % 2 ^ 32)
    then elim (add_params buf res text) [ none ↦ none | some b ↦ some (pos (res + length text), b) ]
    else some (pos res, buf)

-- `res` and `buf` are what `gcoap_encode_link` returned and left in the buffer, which may be NULL.
pub encode_link : ℤ → ℕ → ℕ → Option Bytes → Option (ℤ × Option Bytes)
unfolding with_params
encode_link (negsuc e) link_pos maxlen buf = some (negsuc e, buf)
encode_link (pos ℕ.zero) link_pos maxlen buf = some (pos 0, buf)
encode_link (pos (ℕ.suc n)) link_pos maxlen buf = elim (link_params link_pos) [
  | none ↦ none
  | some params ↦ with_params params (ℕ.suc n) maxlen buf
]

-- The flags that `coap_method2flag` gives for the resource's methods, and any other.
pub data Flag : Type 0 where
  coap_get coap_post coap_put : Flag
  other : ℕ → Flag

abbrev flag_value : Flag → ℕ
flag_value coap_get = 1
flag_value coap_post = 2
flag_value coap_put = 4
flag_value (other n) = n

-- `res == CREDMAN_EXIST`
abbrev pub same_int : ℤ → ℤ → Bool
same_int (pos m) (pos n) = m == n
same_int (negsuc m) (negsuc n) = m == n
same_int (pos m) (negsuc n) = false
same_int (negsuc m) (pos n) = false

-- A response of a text, up to its payload.
abbrev pub text_response : Pdu
text_response = finish_payload ∷ add_format_text ∷ resp_init content ∷ []

-- A notification, up to its payload.
abbrev pub notification : Pdu
notification = finish_payload ∷ add_format_text ∷ obs_init ∷ []

module _ (env : Env) where
  -- `gcoap_response`
  respond : Code → Prog State (ℕ × Pdu)
  respond code = pure (env.response_len code, finish_payload ∷ resp_init code ∷ [])

  -- A copy of `text` to `pdu->payload`.
  unfoldable pub put_payload : Pdu → Bytes → Option Pdu
  put_payload pdu text =
      if leb (length text) (env.room pdu) then some (payload text ∷ pdu) else none

  stats_get : Prog State (ℕ × Pdu)
  stats_get = do
    count ← gets (λ s. s.req_count)
    pdu ← lift (put_payload text_response (env.fmt_u16_dec count))
    pure (env.finish_len text_response + length (env.fmt_u16_dec count), pdu)

  -- `payload` is an array of 6 zeros before the copy.
  stats_put : Bytes → Prog State (ℕ × Pdu)
  stats_put text = do
    say (printf "@@ _stats_handler(): pdu->payload_len: %d\n" (num (length text) ∷ []))
    if leb (length text) 5
        then (do
          let value = strtoul (text ++ replicate (6 - length text) 0)
          modify (λ s. record s { req_count = value % 2 ^ 16 })
          respond changed)
        else respond bad_request

  by_method : Flag → Bytes → Prog State (ℕ × Pdu)
  by_method coap_get text = stats_get
  by_method coap_post text = stats_put text
  by_method coap_put text = stats_put text
  by_method (other n) text = pure (0, [])

  -- The result is the length, and the packet.
  pub stats_handler : Flag → Bytes → Prog State (ℕ × Pdu)
  stats_handler method_flag text = do
    say (
        printf "@@ _stats_handler(): method_flag: %d (1=GET,2=POST,3=PUT)\n"
          (num (flag_value method_flag) ∷ []))
    by_method method_flag text

  pub riot_stats_handler_minerva : Flag → Bytes → Prog State (ℕ × Pdu)
  riot_stats_handler_minerva method_flag text = do
    say (printf "@@ riot_stats_handler_minerva(): ^^\n" [])
    stats_handler method_flag text

  pub riot_board_handler_minerva : Bytes → Prog State (ℕ × Pdu)
  riot_board_handler_minerva board = do
    say (printf "@@ riot_board_handler_minerva(): baord: %s\n" (str board ∷ []))
    if leb (length board) (env.room text_response)
        then (do
          pdu ← lift (put_payload text_response board)
          pure (env.finish_len text_response + length board, pdu))
        else do say (puts "gcoap_cli: msg buffer too small"); respond internal_server_error

  unfoldable pub notify : ObsInit → Prog State Unit
  notify obs_ok = do
    count ← gets (λ s. s.req_count)
    pdu ← lift (put_payload notification (env.fmt_u16_dec count))
    say (call (obs_send pdu (env.finish_len notification + length (env.fmt_u16_dec count))))
  notify obs_unused = pure tt
  notify obs_err = pure tt

  unfoldable pub notify_observers : Prog State Unit
  notify_observers = do found ← gets (λ s. env.observers s.log); notify found

  unfoldable pub server_state : Prog State Bool
  server_state = gets (λ s. s.server_init_done)

  start_listening : Prog State ℕ
  start_listening = do say (call register_listener); pure 0

  -- `res < 0 && res != CREDMAN_EXIST`
  unfoldable pub refused : ℤ → Bool
  refused res =
      if is_neg res then (if same_int res env.credman_exist then false else true) else false

  -- The credential of the DTLS socket; an error is only printed.
  use_credential : Prog State ℕ
  use_credential = do
    res ← ask add_credential env.dtls_credential
    if is_neg res
        then say (printf "gcoap: cannot add credential to DTLS sock: %d\n" (int res ∷ []))
        else pure tt
    start_listening

  with_dtls : Prog State ℕ
  with_dtls = do
    res ← ask credman_add env.credential
    if refused res
        then (do say (printf "gcoap: cannot add credential to system: %d\n" (int res ∷ [])); pure 2)
        else use_credential

  pub server_init : Prog State ℕ
  server_init = do
    initialised ← gets (λ s. s.server_init_done)
    if initialised then (do say (puts "@@ server_init(): already initialized, NOP"); pure 1) else do
      modify (λ s. record s { server_init_done = true })
      if env.module_gcoap_dtls then with_dtls else start_listening
