-- ===== src/Lwip/Udp.antt =====
-- examples/native-lwip/main/udp.c. `Env` is RIOT: what its functions answer, given all that was
-- done before. A server thread ends in `event_loop`, which calls `udp_recv` for each event.
pub mod Laws
pub mod Reach
pub mod Server
pub mod Command
use studio.Base.{
  ℕ, ◌+◌, ◌≤◌, ◌/◌, Bool, true, false, ◌&&◌, Option, none, some, List, [], ◌∷◌, ◌++◌, length,
  get_elem?, take, drop, ltb, leb, ◌==◌, if◌then◌else◌, ℤ, is_neg, is_nonpos, neg, u16, u32, Bytes,
  codes, str_eq, Prog, pure, lift, gets, modify, ◌>>=◌, ◌>>◌, for_range, Event, puts, printf,
  od_hex_dump, call, Val, num, int, str, Log, ◌≡◌,
}
use studio.Libc.{atoi}
use studio.Lwip.Hex.{hex2ints}
use studio.Lwip.Sock.{Family, inet6, Endpoint, AsyncFlags}

-- The calls of RIOT. The flag of `sock_udp_send` is `sock == &server_sock`; else it is NULL.
pub data Call : Type 0 where
  thread_create : Bytes → Call
  sock_udp_create : Endpoint → Call
  sock_udp_event_init : Call
  sock_udp_recv : Call
  sock_udp_send : Bool → Bytes → Endpoint → Call
  usleep : ℕ → Call

-- `none` of `sock_udp_str2ep`, `sock_udp_recv` and `sock_udp_ep_fmt` is a negative result.
pub record Env : Type 0 where
  pub sock_ip_ep_any : Endpoint
  pub shell_bufsize : ℕ
  pub byte_data : Bytes
  pub str2ep : Bytes → Option Endpoint
  pub ep_fmt : Endpoint → Option (Bytes × ℕ)
  pub thread : Log Call → ℤ
  pub create : Log Call → ℤ
  pub send : Log Call → ℤ
  pub recv : Log Call → Option (Bytes × Endpoint)

-- The static variables that the code reads, and the log.
pub record State : Type 0 where
  pub server_running : Bool
  pub sock_inbuf : Bytes
  pub log : Log Call

abbrev pub say : Event Call → Prog State Unit
say e = modify (λ s. record s { log = e ∷ s.log })

-- A call whose answer the code reads.
abbrev pub ask : {A : Type 0} → Call → (Log Call → A) → Prog State A
ask c answer s = let l = call c ∷ s.log in some (answer l, record s { log = l })

-- `expect` stops the firmware.
abbrev pub expect : Bool → Prog State Unit
expect ok = if ok then pure tt else lift none

module _ (env : Env) where
  report : Option (Bytes × ℕ) → Prog State Unit
  report none = say (printf "unspecified source\n" [])
  report (some (addr, port)) = say (printf "[%s]:%u\n" (str addr ∷ num port ∷ []))

  -- What `sock_udp_recv` leaves in `sock_inbuf`, and what is printed of it.
  show : Bytes → Endpoint → Prog State Unit
  show data_in src = do
    let res = length data_in
    modify (λ s. record s { sock_inbuf = data_in ++ drop res s.sock_inbuf })
    say (printf "Received UDP data from " [])
    report (env.ep_fmt src)
    inbuf ← gets (λ s. s.sock_inbuf)
    say (od_hex_dump (take res inbuf))

  received : Option (Bytes × Endpoint) → Prog State Unit
  received none = say (puts "Error on receive")
  received (some (data_in, src)) =
      if length data_in == 0 then say (puts "No data received") else show data_in src

  handle : Prog State Unit
  handle = do res ← ask sock_udp_recv env.recv; received res

  pub udp_recv : AsyncFlags → Bytes → Prog State Unit
  udp_recv flags arg = do
    expect (str_eq arg (codes "test"))
    if flags.msg_recv then handle else pure tt

  -- Up to `event_loop`, or to the return; the set-up of the thread's own queues is left out.
  unfoldable pub server_thread : Bytes → Prog State Unit
  server_thread args = do
    let server_addr = record (env.sock_ip_ep_any) { port = u16 (atoi args) }
    res ← ask (sock_udp_create server_addr) env.create
    if is_neg res
        then say (
            printf "Unable to open UDP server on port %u (error code %d)\n"
              (num server_addr.port ∷ int (neg res) ∷ []))
        else do
          modify (λ s. record s { server_running = true })
          say (printf "Success: started UDP server on port %u\n" (num server_addr.port ∷ []))
          say (call sock_udp_event_init)

  -- One round of the loop of `udp_send`.
  unfoldable pub send_round : Bytes → Bytes → Endpoint → ℕ → Prog State Unit
  send_round addr_str payload dst delay = do
    own ← gets (λ s. s.server_running)
    res ← ask (sock_udp_send own payload dst) env.send
    if is_neg res
        then say (puts "could not send")
        else say (
            printf "Success: send %u byte over UDP to %s\n"
              (num (length payload) ∷ str addr_str ∷ []))
    say (call (usleep delay))

  send_to : Option Endpoint → Bytes → Bytes → ℕ → ℕ → Prog State ℕ
  send_to none addr_str text n delay = do
    say (puts "Error: unable to parse destination address")
    pure 1
  send_to (some dst) addr_str text n delay =
      if dst.port == 0
      then (do say (puts "Error: no port or illegal port value provided"); pure 1)
      else do
        (data_len, buf) ← lift (hex2ints env.byte_data text)
        for_range n (send_round addr_str (take data_len buf) dst delay)
        pure 0

  pub udp_send : Bytes → Bytes → ℕ → ℕ → Prog State ℕ
  unfolding send_to
  udp_send addr_str text n delay = send_to (env.str2ep addr_str) addr_str text n delay

  unfoldable pub udp_start_server : Bytes → Prog State ℕ
  udp_start_server port_str = do
    pid ← ask (thread_create port_str) env.thread
    pure (if is_nonpos pid then 1 else 0)

  -- `if (argc > i) x = atoi(argv[i]);`
  unfoldable pub optional_arg : List Bytes → ℕ → ℕ → Prog State ℕ
  optional_arg argv i default =
      if ltb i (length argv)
      then (do text ← lift (get_elem? argv i); pure (u32 (atoi text)))
      else pure default

  cmd_send : List Bytes → Prog State ℕ
  cmd_send argv =
      if ltb (length argv) 4
      then (do
        name ← lift (get_elem? argv 0)
        say (
            printf "usage: %s send <addr>:<port> <hex data> [<num> [<delay in us>]]\n"
              (str name ∷ []))
        pure 1)
      else do
        n ← optional_arg argv 4 1
        delay ← optional_arg argv 5 1000000
        addr ← lift (get_elem? argv 2)
        text ← lift (get_elem? argv 3)
        udp_send addr text n delay

  cmd_start : List Bytes → Prog State ℕ
  cmd_start argv =
      if ltb (length argv) 4
      then (do
        name ← lift (get_elem? argv 0)
        say (printf "usage %s server start <port>\n" (str name ∷ []))
        pure 1)
      else do port ← lift (get_elem? argv 3); udp_start_server port

  cmd_server : List Bytes → Prog State ℕ
  cmd_server argv =
      if ltb (length argv) 3
      then (do
        name ← lift (get_elem? argv 0)
        say (printf "usage: %s server [start|stop]\n" (str name ∷ []))
        pure 1)
      else do
        verb ← lift (get_elem? argv 2)
        if str_eq verb (codes "start")
            then cmd_start argv
            else do say (puts "error: invalid command"); pure 1

  pub udp_cmd : List Bytes → Prog State ℕ
  udp_cmd argv =
      if ltb (length argv) 2
      then (do
        name ← lift (get_elem? argv 0)
        say (printf "usage: %s [send|server]\n" (str name ∷ []))
        pure 1)
      else do
        verb ← lift (get_elem? argv 1)
        if str_eq verb (codes "send")
            then cmd_send argv
            else if str_eq verb (codes "server")
            then cmd_server argv
            else do say (puts "error: invalid command"); pure 1
