-- ===== src/Libcoap.antt =====
-- examples/xbd-net/modules/minerva_libcoap: `client_coap_init` (client-coap.c) and the shell's command
-- (client-coap.h), on a target where `unsigned` and `size_t` have 32 bits. `Env` is libcoap: what its
-- functions answer, given all that was done before. Objects of libcoap are known by numbers, and
-- `none` is NULL.
pub mod Events
pub mod Resolve
pub mod Wait
pub mod Client
use studio.Base.{
  ℕ, zero, suc, ◌+◌, ◌-◌, ◌*◌, ◌%◌, ◌^◌, Bool, true, false, not, ◌||◌, Option, none, some, List, [],
  ◌∷◌, length, get_elem?, take, ltb, leb, ◌==◌, if◌then◌else◌, ℤ, pos, negsuc, u16, Bytes, codes,
  str_eq, Prog, pure, lift, gets, modify, ◌>>=◌, ◌>>◌, Event, puts, printf, call, str, Log,
}
use studio.Libc.{atoi}
use studio.Libc.Decimal.{decimal}

-- The parts of a `coap_uri_t` that the code reads.
pub record Uri : Type 0 where
  pub host : Bytes
  pub port : ℕ
  pub scheme : ℕ

pub data Proto : Type 0 where
  udp tcp dtls : Proto

-- `coap_dtls_cpsk_t`, with the name as the C string in its array.
pub record Psk : Type 0 where
  pub client_sni : Bytes
  pub identity : Bytes
  pub key : Bytes

pub data Reason : Type 0 where
  too_many_retries not_deliverable rst icmp_issue bad_response : Reason
  tls_failed tls_layer_failed ws_layer_failed ws_failed other_reason : Reason

-- What the handlers are told: a response, with its data, offset and total if it has data, or a
-- failure.
pub data Incoming : Type 0 where
  response : Option (Bytes × ℕ × ℕ) → Incoming
  nack : Reason → Incoming

pub data Call : Type 0 where
  startup set_log_level : Call
  resolve_address_info : Bytes → ℕ → ℕ → Call
  free_address_info : Call
  new_context set_block_mode : Call
  new_client_session : Proto → Bytes → Option Psk → Call
  register_response_handler register_nack_handler : Call
  pdu_init : Bool → Call
  uri_into_options : Call
  add_optlist_pdu : ℕ → ℕ → Call
  send : ℕ → Call
  io_process : Call
  delete_optlist session_release free_context : Option ℕ → Call
  cleanup : Call

-- `session` and the others are what the functions return. `options` and `added` are what the list of
-- options is afterwards, and whether the call succeeded. `io` is what the handlers are told during
-- `coap_io_process`, and its result.
pub record Env : Type 0 where
  pub scheme_coap : ℕ
  pub scheme_coap_tcp : ℕ
  pub split_uri : Bytes → Option Uri
  pub resolved : Log Call → Option Bytes
  pub multicast : Bytes → Bool
  pub context : Log Call → Option ℕ
  pub session : Log Call → Option ℕ
  pub pdu : Log Call → Option ℕ
  pub options : Log Call → Option ℕ × Bool
  pub added : Log Call → Option ℕ × Bool
  pub leisure : Log Call → ℕ
  pub sent : Log Call → Bool
  pub io : Log Call → List Incoming × ℤ

-- The static variables, and the log.
pub record State : Type 0 where
  pub main_coap_context : Option ℕ
  pub optlist : Option ℕ
  pub quit : Bool
  pub is_mcast : Bool
  pub wait_seconds : ℕ
  pub log : Log Call

-- COAP_CLIENT_URI_DEFAULT
abbrev pub default_uri : Bytes
default_uri = codes "coap://[fe80::405:5aff:fe15:9b7f]/.well-known/core"

abbrev pub say : Event Call → Prog State Unit
say e = modify (λ s. record s { log = e ∷ s.log })

abbrev pub ask : {A : Type 0} → Call → (Log Call → A) → Prog State A
ask c answer s = let l = call c ∷ s.log in some (answer l, record s { log = l })

-- `coap_log_warn` and the others, which only print.
abbrev pub warn : Event Call → Prog State Unit
warn = say

unfoldable pub message_handler : Option (Bytes × ℕ × ℕ) → Prog State Unit
message_handler none = pure tt
message_handler (some (text, offset, total)) = do
  say (printf "%*.*s" (str text ∷ []))
  if (length text + offset) % 2 ^ 32 == total
      then (do say (printf "\n" []); modify (λ s. record s { quit = true }))
      else pure tt

-- Whether `nack_handler` gives up.
unfoldable pub is_fatal : Reason → Bool
is_fatal too_many_retries = true
is_fatal not_deliverable = true
is_fatal rst = true
is_fatal tls_failed = true
is_fatal tls_layer_failed = true
is_fatal ws_layer_failed = true
is_fatal ws_failed = true
is_fatal icmp_issue = false
is_fatal bad_response = false
is_fatal other_reason = false

unfoldable pub nack_handler : Reason → Prog State Unit
unfolding is_fatal
nack_handler reason =
    if is_fatal reason
    then (do warn (puts "cannot send CoAP pdu"); modify (λ s. record s { quit = true }))
    else pure tt

-- The handlers, as `coap_io_process` calls them.
pub run_handlers : List Incoming → Prog State Unit
run_handlers [] = pure tt
run_handlers (response found ∷ rest) = do message_handler found; run_handlers rest
run_handlers (nack reason ∷ rest) = do nack_handler reason; run_handlers rest

-- What is left of `wait_ms` after a call that took `result`; `none` is the timeout.
unfoldable pub elapsed : ℤ → ℕ → Option ℕ
elapsed (negsuc n) wait_ms = some wait_ms
elapsed (pos n) wait_ms =
    if ltb 0 wait_ms then (if leb wait_ms n then none else some (wait_ms - n)) else some wait_ms

module _ (env : Env) where
  found_address : Option Bytes → Prog State Unit
  found_address none = pure tt
  found_address (some dst) = modify (λ s. record s { is_mcast = env.multicast dst })

  -- The address, if there is one.
  pub resolve_address : Bytes → Bytes → ℕ → Prog State (Option Bytes)
  resolve_address host service scheme_hint_bits = do
    found ← ask (resolve_address_info host (u16 (atoi service)) scheme_hint_bits) env.resolved
    found_address found
    say (call free_address_info)
    pure found

  -- `coap_io_process`
  process : Prog State ℤ
  process = do (told, result) ← ask io_process env.io; run_handlers told; pure result

  -- The loop after the request was sent; `none` also stands for the end of the fuel.
  pub wait_loop : ℕ → ℕ → Prog State Unit
  wait_loop zero wait_ms = lift none
  wait_loop (suc fuel) wait_ms = do
    quit ← gets (λ s. s.quit)
    is_mcast ← gets (λ s. s.is_mcast)
    if not quit || is_mcast
        then (do
          result ← process
          elim (elapsed result wait_ms) [
            | none ↦ warn (puts "timeout")
            | some rest ↦ wait_loop fuel rest
          ])
        else pure tt
