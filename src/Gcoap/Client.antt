-- ===== src/Gcoap/Client.antt =====
-- examples/xbd-net/modules/minerva_gcoap/client.c: `_send`, and what the other parts of the file
-- share. A C string is the
-- bytes before its NUL; the two arrays of 64 bytes are read as such texts only.
pub mod Blockwise
pub mod Config
pub mod Command
pub mod Send
pub mod Count
use studio.Base.{
  ℕ, zero, suc, ◌+◌, ◌-◌, ◌/◌, ◌%◌, ◌^◌, Bool, true, false, ◌&&◌, Option, none, some, List, [], ◌∷◌,
  ◌++◌, length, get_elem?, take, ltb, leb, ◌==◌, if◌then◌else◌, Bytes, codes, str_eq, Prog, pure,
  lift, gets, modify, ◌>>=◌, ◌>>◌, Event, puts, printf, od_hex_dump, call, num, str, Log, ◌≡◌,
  String,
}
use studio.Lwip.Sock.{Family, unspec, inet, inet6, Endpoint}
use studio.Gcoap.{
  Block, MsgType, con, non, ack, rst, Method, ping, get, post, put, Build, req_init, set_type,
  add_format_text, add_proxy_uri, add_block2, finish_payload, finish_none, payload, Pdu, Call,
  req_send, Env, State, say, ask,
}
use studio.Gcoap.Server.{server_init, server_state, notify_observers}

-- `(int) strlen(uri) < _LAST_REQ_PATH_MAX` decides whether the path is kept; else the array stays
-- all zeros.
unfoldable pub kept_path : Bytes → ℕ → Bytes
kept_path uri uri_len = if ltb uri_len 64 then take uri_len uri else []

abbrev pub empty : Bytes → Bool
empty [] = true
empty (c ∷ cs) = false

module _ (env : Env) where
  abbrev pub default_port : ℕ
  default_port = if env.module_gcoap_dtls then env.gcoaps_port else env.gcoap_port

  -- `if (ep.port == 0) ep.port = ...`
  unfoldable pub with_port : Endpoint → Endpoint
  with_port ep = if ep.port == 0 then record ep { port = default_port } else ep

  -- `gcoap_req_send`, and the count of the requests that were sent.
  unfoldable pub send_on : Pdu → ℕ → Endpoint → Prog State ℕ
  send_on pdu len remote = do
    bytes_sent ← ask (req_send pdu len remote) env.sent
    if ltb 0 bytes_sent
        then modify (λ s. record s { req_count = (s.req_count + 1) % 2 ^ 16 })
        else pure tt
    pure bytes_sent

  unfoldable pub send_found : Pdu → ℕ → Bool × Endpoint → Prog State ℕ
  send_found pdu len (false, ep) = pure 0
  send_found pdu len (true, ep) = send_on pdu len (with_port ep)

  -- `_send`
  pub send : Pdu → ℕ → Bytes → Prog State ℕ
  send pdu len addr_str = do
    proxied ← gets (λ s. s.proxied)
    if proxied then (do remote ← gets (λ s. s.proxy_remote); send_on pdu len remote) else do
      found ← gets (λ s. env.name2ep s.log addr_str env.old_remote)
      send_found pdu len found
