-- ===== src/Gcoap/Client/Command.antt =====
-- examples/xbd-net/modules/minerva_gcoap/client.c: the command line, and the requests of a method.
pub mod Laws
pub mod Count
pub mod Message
pub mod Send
use studio.Base.{
  ℕ, zero, suc, ◌+◌, ◌-◌, ◌/◌, ◌%◌, ◌^◌, Bool, true, false, ◌&&◌, Option, none, some, List, [], ◌∷◌,
  ◌++◌, length, get_elem?, take, ltb, leb, ◌==◌, if◌then◌else◌, Bytes, codes, str_eq, Prog, pure,
  lift, gets, modify, ◌>>=◌, ◌>>◌, Event, puts, printf, od_hex_dump, call, num, str, Log, ◌≡◌,
  String,
}
use studio.Lwip.Sock.{Family, unspec, inet, inet6, Endpoint}
use studio.Gcoap.{
  Block, MsgType, con, non, ack, rst, Method, ping, get, post, put, Build, req_init, set_type,
  add_format_text, add_proxy_uri, add_block2, finish_payload, finish_none, payload, Pdu, Call,
  req_send, Env, State, say, ask,
}
use studio.Gcoap.Server.{server_init, server_state, notify_observers}
use studio.Libc.Decimal.{decimal}
use studio.Gcoap.Client.{kept_path, empty, default_port, with_port, send}
use studio.Gcoap.Client.Config.{is_inet6, print_usage, cmd_info, cmd_proxy}

-- `method_codes`, in its order
find_method : Bytes → Option Method
find_method text =
    if str_eq text (codes "ping")
    then some ping
    else if str_eq text (codes "get")
    then some get
    else if str_eq text (codes "post")
    then some post
    else if str_eq text (codes "put")
    then some put
    else none

is_ping : Method → Bool
is_ping ping = true
is_ping get = false
is_ping post = false
is_ping put = false

default_type : Method → MsgType
default_type m = if is_ping m then con else non

-- The number of arguments that a method may have, where the address stands at `apos`.
fits_method : Method → ℕ → ℕ → Bool
fits_method ping argc apos = argc == apos + 1
fits_method get argc apos = argc == apos + 2
fits_method post argc apos = if argc == apos + 2 then true else argc == apos + 3
fits_method put argc apos = if argc == apos + 2 then true else argc == apos + 3

method_usage : List Bytes → Prog State ℕ
method_usage argv = do
  name ← lift (get_elem? argv 0)
  say (printf "usage: %s <get|post|put> [-c] <host>[:port] <path> [data]\n" (str name ∷ []))
  say (printf "       %s ping <host>[:port]\n" (str name ∷ []))
  say (printf "Options\n" [])
  say (printf "    -c  Send confirmably (defaults to non-confirmable)\n" [])
  pure 1

-- `uri && ((uri_len <= 0) || (uri[0] != '/'))`
unfoldable pub bad_path : Option Bytes → Bool
bad_path none = false
bad_path (some []) = true
bad_path (some (c ∷ cs)) = if c == b'/' then false else true

-- A NULL path has the length 0, of which nothing is read.
pub path_text : Option Bytes → Bytes
path_text none = []
path_text (some path) = path

-- The packet up to `coap_opt_finish`.
pub with_options : Bool → Bool → Bytes → Pdu → Pdu
with_options has_payload proxied uri pdu =
    let pdu' = if has_payload then add_format_text ∷ pdu else pdu in
    let pdu'' = if proxied then add_proxy_uri uri ∷ pdu' else pdu' in
    if has_payload then finish_payload ∷ pdu'' else finish_none ∷ pdu''

-- `argv[apos+1]`, which a ping does not have.
path_arg : List Bytes → Method → ℕ → Prog State (Option Bytes)
path_arg argv method apos =
    if is_ping method
    then pure none
    else (do path ← lift (get_elem? argv (apos + 1)); pure (some path))

-- `(argc == apos + 3) ? argv[apos+2] : ""`
payload_arg : List Bytes → ℕ → Prog State Bytes
payload_arg argv apos =
    if length argv == apos + 3 then lift (get_elem? argv (apos + 2)) else pure []

-- `argc > apos && strcmp(argv[apos], "-c") == 0`
has_confirm : List Bytes → Prog State Bool
has_confirm argv =
    if ltb 2 (length argv)
    then (do text ← lift (get_elem? argv 2); pure (str_eq text (codes "-c")))
    else pure false

test_argv : Bytes → Bytes → Option Bytes → List Bytes
test_argv req addr none = codes "gcoap" ∷ req ∷ addr ∷ []
test_argv req addr (some uri) = codes "gcoap" ∷ req ∷ addr ∷ uri ∷ []

null_text : Option Bytes → Bytes
null_text none = codes "(null)"
null_text (some uri) = uri

module _ (env : Env) where
  -- The URI of a request by the proxy, before `snprintf` cuts it to 63 bytes.
  pub full_uri : Endpoint → Bytes → Bytes
  full_uri ep path =
      if is_inet6 ep.family
      then codes "coap://[" ++ env.inet_ntop ep ++ codes "]:" ++ decimal ep.port ++ path
      else codes "coap://" ++ env.inet_ntop ep ++ codes ":" ++ decimal ep.port ++ path

  -- The URI, its length before it was cut, and the packet with its path; `none` if the address is
  -- not understood. The path of a ping is NULL, which `snprintf` may not be given for `%s`.
  prepare_proxied : Method → Option Bytes → Bool × Endpoint → Prog State (Option (Bytes × ℕ × Pdu))
  prepare_proxied method path (false, ep) = pure none
  prepare_proxied method path (true, ep) = do
    text ← lift path
    let uri = full_uri (with_port env ep) text
    modify (λ s. record s { proxy_uri = take 63 uri })
    pure (some (take 63 uri, length uri, req_init method none ∷ []))

  prepare : Method → Option Bytes → Bytes → Prog State (Option (Bytes × ℕ × Pdu))
  prepare method path addr = do
    proxied ← gets (λ s. s.proxied)
    if proxied
        then (do
          found ← gets (λ s. env.name2ep s.log addr env.old_remote)
          prepare_proxied method path found)
        else pure (some (path_text path, length (path_text path), req_init method path ∷ []))

  -- From the line that announces the message to the end.
  send_message : Pdu → ℕ → Bytes → Prog State ℕ
  send_message pdu len addr = do
    id ← gets (λ s. env.id_of s.log)
    say (printf "gcoap_cli: sending msg ID %u, %u bytes\n" (num id ∷ num len ∷ []))
    bytes_sent ← send env pdu len addr
    if bytes_sent == 0 then say (puts "gcoap_cli: msg send failed") else notify_observers env
    pure 0

  send_payload : Pdu → Bytes → Bytes → Prog State ℕ
  send_payload pdu text addr =
      if empty text
      then send_message pdu (env.finish_len pdu) addr
      else if leb (length text) (env.room pdu)
      then send_message (payload text ∷ pdu) (env.finish_len pdu + length text) addr
      else do say (puts "gcoap_cli: msg buffer too small"); pure 1

  pub send_prepared : List Bytes → MsgType → Bytes → Bytes → Option (Bytes × ℕ × Pdu) → Prog State ℕ
  send_prepared argv msg_type addr text none = print_usage argv
  send_prepared argv msg_type addr text (some (uri, uri_len, pdu)) = do
    modify (λ s. record s { last_req_path = kept_path uri uri_len })
    proxied ← gets (λ s. s.proxied)
    send_payload
        (with_options (if empty text then false else true) proxied uri (set_type msg_type ∷ pdu))
        text addr

  -- The request of a method, with the arguments read.
  pub request_method : List Bytes → Method → MsgType → Bytes → Option Bytes → Bytes → Prog State ℕ
  request_method argv method msg_type addr path text =
      if bad_path path
      then (do say (puts "ERROR: URI-Path must start with a \"/\""); print_usage argv)
      else do prepared ← prepare method path addr; send_prepared argv msg_type addr text prepared

  cmd_at : List Bytes → Method → MsgType → ℕ → Prog State ℕ
  cmd_at argv method msg_type apos =
      if fits_method method (length argv) apos
      then (do
        addr ← lift (get_elem? argv apos)
        path ← path_arg argv method apos
        text ← payload_arg argv apos
        request_method argv method msg_type addr path text)
      else method_usage argv

  cmd_method : List Bytes → Option Method → Prog State ℕ
  cmd_method argv none = print_usage argv
  cmd_method argv (some method) = do
    confirmed ← has_confirm argv
    if confirmed then cmd_at argv method con 3 else cmd_at argv method (default_type method) 2

  pub gcoap_cli_cmd : List Bytes → Prog State ℕ
  gcoap_cli_cmd argv = if length argv == 1 then print_usage argv else do
    verb ← lift (get_elem? argv 1)
    if str_eq verb (codes "server")
        then server_init env
        else if str_eq verb (codes "info")
        then cmd_info env
        else if str_eq verb (codes "proxy")
        then cmd_proxy env argv
        else cmd_method argv (find_method verb)

  pub test_gcoap_req : Bytes → Bytes → Option Bytes → Prog State ℕ
  test_gcoap_req req addr uri = do
    say (
        printf "@@-------- test_gcoap_req(): gcoap %s %s %s\n"
          (str req ∷ str addr ∷ str (null_text uri) ∷ []))
    gcoap_cli_cmd (test_argv req addr uri)
