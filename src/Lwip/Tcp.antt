-- ===== src/Lwip/Tcp.antt =====
-- examples/native-lwip/main/tcp.c. `Env` is RIOT: what its functions answer, given all that was
-- done before. The server's thread and its handlers are in Events.
pub mod Events
pub mod Laws
pub mod Command
use studio.Base.{
  ℕ, zero, suc, ◌+◌, ◌≤◌, ◌/◌, Bool, true, false, ◌&&◌, Option, none, some, List, [], ◌∷◌, ◌++◌,
  length, get_elem?, take, drop, ltb, leb, ◌==◌, if◌then◌else◌, ℤ, is_neg, is_nonpos, neg, u16, u32,
  Bytes, codes, str_eq, Prog, pure, lift, gets, modify, ◌>>=◌, ◌>>◌, for_range, Event, puts, printf,
  od_hex_dump, call, Val, num, int, str, Log, ◌≡◌, String,
}
use studio.Libc.{atoi}
use studio.Lwip.Hex.{hex2ints}
use studio.Lwip.Sock.{Endpoint, AsyncFlags}

-- `&client_sock`, or a socket of the server's queue.
pub data Sock : Type 0 where
  client_sock : Sock
  queued : ℕ → Sock

pub data Call : Type 0 where
  thread_create : Bytes → Call
  sock_tcp_listen : Endpoint → Call
  sock_tcp_queue_event_init : Call
  sock_tcp_accept : Call
  sock_tcp_event_init : Sock → Call
  sock_tcp_connect : Endpoint → ℕ → Call
  sock_tcp_disconnect : Sock → Call
  sock_tcp_read : Sock → Call
  sock_tcp_write : Bytes → Call
  usleep : ℕ → Call

-- `none` of `str2ep`, `ep_fmt`, `remote`, `read` and `accept` is a negative result; that of
-- `accept` is printed. `old_remote` and `old_port` are what uninitialised locals hold.
pub record Env : Type 0 where
  pub sock_ip_ep_any : Endpoint
  pub shell_bufsize : ℕ
  pub byte_data : Bytes
  pub old_remote : Endpoint
  pub old_port : ℕ
  pub str2ep : Bytes → Option Endpoint
  pub ep_fmt : Endpoint → Option (Bytes × ℕ)
  pub thread : Log Call → ℤ
  pub listen : Log Call → ℤ
  pub connect : Log Call → ℤ
  pub write : Log Call → ℤ
  pub remote : Sock → Log Call → Option Endpoint
  pub read : Log Call → Option Bytes
  pub accept : Log Call → Option ℕ
  pub accept_error : Log Call → ℤ

-- The static variables that the code reads, and the log.
pub record State : Type 0 where
  pub server_running : Bool
  pub client_running : Bool
  pub sock_inbuf : Bytes
  pub addr_str : Bytes
  pub log : Log Call

abbrev pub say : Event Call → Prog State Unit
say e = modify (λ s. record s { log = e ∷ s.log })

abbrev pub ask : {A : Type 0} → Call → (Log Call → A) → Prog State A
ask c answer s = let l = call c ∷ s.log in some (answer l, record s { log = l })

abbrev pub expect : Bool → Prog State Unit
expect ok = if ok then pure tt else lift none

module _ (env : Env) where
  fail : String → Prog State ℕ
  fail message = do say (puts message); pure 1

  connect_from : Endpoint → ℕ → Prog State ℕ
  connect_from dst local_port = do
    res ← ask (sock_tcp_connect dst local_port) env.connect
    if is_neg res
        then fail "Error: unable to connect"
        else do modify (λ s. record s { client_running = true }); pure 0

  connect_to : Endpoint → Option Bytes → Prog State ℕ
  connect_to dst none = connect_from dst 0
  connect_to dst (some local_port_str) =
      let local_port = u16 (atoi local_port_str) in
      if local_port == 0 then fail "Error: Illegal local port 0" else connect_from dst local_port

  connect_found : Option Endpoint → Option Bytes → Prog State ℕ
  connect_found none local = fail "Error: unable to parse destination address"
  connect_found (some dst) local =
      if dst.port == 0
      then fail "Error: no port or illegal port value provided"
      else connect_to dst local

  pub tcp_connect : Bytes → Option Bytes → Prog State ℕ
  tcp_connect addr_str local_port_str = do
    running ← gets (λ s. s.client_running)
    if running
        then fail "Client already connected"
        else connect_found (env.str2ep addr_str) local_port_str

  pub tcp_disconnect : Prog State ℕ
  tcp_disconnect = do
    say (call (sock_tcp_disconnect client_sock))
    modify (λ s. record s { client_running = false })
    pure 0

  -- One round of the loop of `tcp_send`.
  unfoldable pub send_round : Bytes → ℕ → Prog State Unit
  send_round payload delay = do
    res ← ask (sock_tcp_write payload) env.write
    if is_neg res
        then say (puts "could not send")
        else say (printf "Success: send %u byte over TCP to server\n" (num (length payload) ∷ []))
    say (call (usleep delay))

  pub tcp_send : Bytes → ℕ → ℕ → Prog State ℕ
  tcp_send text n delay = do
    (data_len, buf) ← lift (hex2ints env.byte_data text)
    for_range n (send_round (take data_len buf) delay)
    pure 0

  unfoldable pub tcp_start_server : Bytes → Prog State ℕ
  tcp_start_server port_str = do
    pid ← ask (thread_create port_str) env.thread
    pure (if is_nonpos pid then 1 else 0)

  -- `if (argc > i) x = atoi(argv[i]);`
  unfoldable pub optional_arg : List Bytes → ℕ → ℕ → Prog State ℕ
  optional_arg argv i default =
      if ltb i (length argv)
      then (do text ← lift (get_elem? argv i); pure (u32 (atoi text)))
      else pure default

  cmd_connect : List Bytes → Prog State ℕ
  cmd_connect argv =
      if ltb (length argv) 3
      then (do
        name ← lift (get_elem? argv 0)
        say (printf "usage: %s connect <addr>:<port> [local_port]\n" (str name ∷ []))
        pure 1)
      else do addr ← lift (get_elem? argv 2); tcp_connect addr (get_elem? argv 3)

  cmd_send : List Bytes → Prog State ℕ
  cmd_send argv =
      if ltb (length argv) 3
      then (do
        name ← lift (get_elem? argv 0)
        say (printf "usage: %s send <hex data> [<num> [<delay in us>]]\n" (str name ∷ []))
        pure 1)
      else do
        n ← optional_arg argv 3 1
        delay ← optional_arg argv 4 1000000
        text ← lift (get_elem? argv 2)
        tcp_send text n delay

  cmd_start : List Bytes → Prog State ℕ
  cmd_start argv =
      if ltb (length argv) 4
      then (do
        name ← lift (get_elem? argv 0)
        say (printf "usage %s server start <port>\n" (str name ∷ []))
        pure 1)
      else do port ← lift (get_elem? argv 3); tcp_start_server port

  cmd_server : List Bytes → Prog State ℕ
  cmd_server argv =
      if ltb (length argv) 3
      then (do
        name ← lift (get_elem? argv 0)
        say (printf "usage: %s server [start|stop]\n" (str name ∷ []))
        pure 1)
      else do
        verb ← lift (get_elem? argv 2)
        if str_eq verb (codes "start")
            then cmd_start argv
            else do say (puts "error: invalid command"); pure 1

  pub tcp_cmd : List Bytes → Prog State ℕ
  tcp_cmd argv =
      if ltb (length argv) 2
      then (do
        name ← lift (get_elem? argv 0)
        say (printf "usage: %s [connect|disconnect|send|server]\n" (str name ∷ []))
        pure 1)
      else do
        verb ← lift (get_elem? argv 1)
        if str_eq verb (codes "connect")
            then cmd_connect argv
            else if str_eq verb (codes "disconnect")
            then tcp_disconnect
            else if str_eq verb (codes "send")
            then cmd_send argv
            else if str_eq verb (codes "server")
            then cmd_server argv
            else fail "error: invalid command"
