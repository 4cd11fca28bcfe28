-- ===== src/Lwip/Ip.antt =====
-- examples/native-lwip/main/ip.c. `Env` is RIOT: what its functions answer, given all that was
-- done before. A server thread ends in `event_loop`, which calls `ip_recv` for each event.
pub mod Laws
pub mod Command
pub mod Server
use studio.Base.{
  ℕ, ◌+◌, ◌≤◌, ◌/◌, Bool, true, false, ◌&&◌, Option, none, some, List, [], ◌∷◌, ◌++◌, length,
  get_elem?, take, drop, ltb, leb, ◌==◌, if◌then◌else◌, ℤ, is_neg, is_nonpos, neg, u8, u32, Bytes,
  codes, str_eq, Prog, pure, lift, gets, modify, ◌>>=◌, ◌>>◌, for_range, Event, puts, printf,
  od_hex_dump, call, Val, num, int, str, Log, ◌≡◌, ◌||◌, String,
}
use studio.Libc.{atoi}
use studio.Lwip.Hex.{hex2ints}
use studio.Lwip.Sock.{Family, unspec, inet, inet6, Endpoint, AsyncFlags}

-- The calls of RIOT, with the protocol number. The flag of `sock_ip_send` is
-- `sock == &server_sock`; else it is NULL.
pub data Call : Type 0 where
  thread_create : Bytes → Call
  sock_ip_create : Endpoint → ℕ → Call
  sock_ip_event_init : Call
  sock_ip_recv : Call
  sock_ip_send : Bool → Bytes → ℕ → Endpoint → Call
  usleep : ℕ → Call

-- The two flags are the IP versions that are built in. `none` of `ipv6_from_str` and
-- `ipv4_from_str` is NULL, and of `sock_ip_recv` a negative result.
pub record Env : Type 0 where
  pub ipv6_used : Bool
  pub ipv4_used : Bool
  pub sock_ip_ep_any : Endpoint
  pub shell_bufsize : ℕ
  pub byte_data : Bytes
  pub ipv6_from_str : Bytes → Option Bytes
  pub ipv4_from_str : Bytes → Option Bytes
  pub ipv6_to_str : Bytes → Bytes
  pub ipv4_to_str : Bytes → Bytes
  pub thread : Log Call → ℤ
  pub create : Log Call → ℤ
  pub send : Log Call → ℤ
  pub recv : Log Call → Option (Bytes × Endpoint)

-- The static variables that the code reads, and the log.
pub record State : Type 0 where
  pub server_running : Bool
  pub sock_inbuf : Bytes
  pub log : Log Call

abbrev pub say : Event Call → Prog State Unit
say e = modify (λ s. record s { log = e ∷ s.log })

-- A call whose answer the code reads.
abbrev pub ask : {A : Type 0} → Call → (Log Call → A) → Prog State A
ask c answer s = let l = call c ∷ s.log in some (answer l, record s { log = l })

-- `expect` stops the firmware.
abbrev pub expect : Bool → Prog State Unit
expect ok = if ok then pure tt else lift none

-- strchr(s, ':') != NULL
unfoldable pub has_colon : Bytes → Bool
has_colon [] = false
has_colon (c ∷ s) = c == b':' || has_colon s

module _ (env : Env) where
  unspecified : Prog State Unit
  unspecified = say (printf "unspecified source\n" [])

  -- The switch over the source's family.
  report : Family → Bytes → Prog State Unit
  report inet addr =
      if env.ipv4_used
      then say (printf "[%s]:\n" (str (env.ipv4_to_str addr) ∷ []))
      else unspecified
  report inet6 addr =
      if env.ipv6_used
      then say (printf "[%s]:\n" (str (env.ipv6_to_str addr) ∷ []))
      else unspecified
  report unspec addr = unspecified

  -- What `sock_ip_recv` leaves in `sock_inbuf`, and what is printed of it.
  show : Bytes → Endpoint → Prog State Unit
  show data_in src = do
    let res = length data_in
    modify (λ s. record s { sock_inbuf = data_in ++ drop res s.sock_inbuf })
    say (printf "Received IP data from " [])
    report src.family src.addr
    inbuf ← gets (λ s. s.sock_inbuf)
    say (od_hex_dump (take res inbuf))

  received : Option (Bytes × Endpoint) → Prog State Unit
  received none = say (puts "Error on receive")
  received (some (data_in, src)) =
      if length data_in == 0 then say (puts "No data received") else show data_in src

  handle : Prog State Unit
  handle = do res ← ask sock_ip_recv env.recv; received res

  pub ip_recv : AsyncFlags → Bytes → Prog State Unit
  ip_recv flags arg = do
    expect (str_eq arg (codes "test"))
    if flags.msg_recv then handle else pure tt

  -- Up to `event_loop`, or to the return; the set-up of the thread's own queues is left out.
  unfoldable pub server_thread : Bytes → Prog State Unit
  server_thread args = do
    let protocol = u8 (atoi args)
    res ← ask (sock_ip_create env.sock_ip_ep_any protocol) env.create
    if is_neg res then pure tt else do
      modify (λ s. record s { server_running = true })
      say (printf "Success: started IP server on protocol %u\n" (num protocol ∷ []))
      say (call sock_ip_event_init)

  -- One round of the loop of `ip_send`.
  family_name : Family → Bytes
  family_name inet6 = codes "IPv6"
  family_name unspec = codes "IPv4"
  family_name inet = codes "IPv4"

  unfoldable pub send_round : Bytes → ℕ → Bytes → Endpoint → ℕ → Prog State Unit
  unfolding family_name
  send_round addr_str protocol payload dst delay = do
    own ← gets (λ s. s.server_running)
    res ← ask (sock_ip_send own payload protocol dst) env.send
    if is_neg res
        then say (puts "could not send")
        else say (
            printf "Success: send %u byte over %s to %s (next header: %u)\n" (
              num (length payload)
              ∷ str (family_name dst.family)
              ∷ str addr_str
              ∷ num protocol
              ∷ []))
    say (call (usleep delay))

  -- The destination's address: what the two `#if` leave of the code is told by the flags.
  from_ipv6 : Option Bytes → Option Endpoint
  from_ipv6 none = none
  from_ipv6 (some a) = some (record (env.sock_ip_ep_any) { family = inet6; addr = a })

  from_ipv4 : Option Bytes → Option Endpoint
  from_ipv4 none = none
  from_ipv4 (some a) = some (record (env.sock_ip_ep_any) { family = inet; addr = a })

  parse_ipv4 : Bytes → Option Endpoint
  parse_ipv4 addr_str =
      if env.ipv4_used then from_ipv4 (env.ipv4_from_str addr_str) else some env.sock_ip_ep_any

  unfoldable pub parse_address : Bytes → Option Endpoint
  unfolding from_ipv6 from_ipv4 parse_ipv4
  parse_address addr_str =
      if env.ipv6_used
      then (if has_colon addr_str
          then from_ipv6 (env.ipv6_from_str addr_str)
          else parse_ipv4 addr_str)
      else parse_ipv4 addr_str

  send_to : Option Endpoint → Bytes → Bytes → Bytes → ℕ → ℕ → Prog State ℕ
  send_to none addr_str port_str text n delay = do
    say (puts "Error: unable to parse destination address")
    pure 1
  send_to (some dst) addr_str port_str text n delay = do
    let protocol = u8 (atoi port_str)
    (data_len, buf) ← lift (hex2ints env.byte_data text)
    for_range n (send_round addr_str protocol (take data_len buf) dst delay)
    pure 0

  pub ip_send : Bytes → Bytes → Bytes → ℕ → ℕ → Prog State ℕ
  ip_send addr_str port_str text n delay =
      send_to (parse_address addr_str) addr_str port_str text n delay

  unfoldable pub ip_start_server : Bytes → Prog State ℕ
  ip_start_server port_str = do
    pid ← ask (thread_create port_str) env.thread
    pure (if is_nonpos pid then 1 else 0)

  -- `if (argc > i) x = atoi(argv[i]);`
  unfoldable pub optional_arg : List Bytes → ℕ → ℕ → Prog State ℕ
  optional_arg argv i default =
      if ltb i (length argv)
      then (do text ← lift (get_elem? argv i); pure (u32 (atoi text)))
      else pure default

  cmd_send : List Bytes → Prog State ℕ
  cmd_send argv =
      if ltb (length argv) 5
      then (do
        name ← lift (get_elem? argv 0)
        say (
            printf "usage: %s send <addr> <protocol> <hex data> [<num> [<delay in us>]]\n"
              (str name ∷ []))
        pure 1)
      else do
        n ← optional_arg argv 5 1
        delay ← optional_arg argv 6 1000000
        addr ← lift (get_elem? argv 2)
        port ← lift (get_elem? argv 3)
        text ← lift (get_elem? argv 4)
        ip_send addr port text n delay

  cmd_start : List Bytes → Prog State ℕ
  cmd_start argv =
      if ltb (length argv) 4
      then (do
        name ← lift (get_elem? argv 0)
        say (printf "usage %s server start <protocol>\n" (str name ∷ []))
        pure 1)
      else do port ← lift (get_elem? argv 3); ip_start_server port

  cmd_server : List Bytes → Prog State ℕ
  cmd_server argv =
      if ltb (length argv) 3
      then (do
        name ← lift (get_elem? argv 0)
        say (printf "usage: %s server [start|stop]\n" (str name ∷ []))
        pure 1)
      else do
        verb ← lift (get_elem? argv 2)
        if str_eq verb (codes "start")
            then cmd_start argv
            else do say (puts "error: invalid command"); pure 1

  pub ip_cmd : List Bytes → Prog State ℕ
  ip_cmd argv =
      if ltb (length argv) 2
      then (do
        name ← lift (get_elem? argv 0)
        say (printf "usage: %s [send|server]\n" (str name ∷ []))
        pure 1)
      else do
        verb ← lift (get_elem? argv 1)
        if str_eq verb (codes "send")
            then cmd_send argv
            else if str_eq verb (codes "server")
            then cmd_server argv
            else do say (puts "error: invalid command"); pure 1
