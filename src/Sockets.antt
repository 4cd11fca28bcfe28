-- ===== src/Sockets.antt =====
-- examples/native-sockets/main/udp.c. `Env` is the POSIX layer of RIOT: what its functions answer,
-- given all that was done before.
pub mod Laws
pub mod Scope
pub mod Start
pub mod Command
pub mod Server
pub mod Thread
use studio.Base.{
  ℕ, zero, suc, ◌+◌, Bool, true, false, Option, none, some, List, [], ◌∷◌, ◌++◌, length, get_elem?,
  drop, ltb, ◌==◌, if◌then◌else◌, ℤ, pos, negsuc, is_neg, is_nonpos, u16, u32, Bytes, codes, str_eq,
  Prog, pure, lift, gets, modify, ◌>>=◌, ◌>>◌, for_range, Event, puts, printf, call, num, int, str,
  Log, ◌≡◌, String,
}
use studio.Libc.{atoi}

-- `struct sockaddr_in6`; the port is in network order.
pub record SockaddrIn6 : Type 0 where
  pub sin6_addr : Bytes
  pub sin6_port : ℕ
  pub sin6_scope_id : ℕ

pub data Call : Type 0 where
  msg_init_queue : Call
  thread_create : Bytes → Call
  socket : Call
  bind : ℤ → SockaddrIn6 → Call
  recvfrom : ℤ → Call
  sendto : ℤ → Bytes → SockaddrIn6 → Call
  usleep : ℕ → Call
  close : ℤ → Call

-- `split_iface` is `ipv6_addr_split_iface`: the address that it leaves, and the interface's name
-- if there is one. `netif` is the identifier of an interface of this name, `none` of `inet_pton`
-- and of `received` a negative result. `old_scope` is what an uninitialised `sin6_scope_id` holds.
pub record Env : Type 0 where
  pub sock_has_ipv6 : Bool
  pub htons : ℕ → ℕ
  pub old_scope : ℕ
  pub split_iface : Bytes → Bytes × Option Bytes
  pub netif : Bytes → Option ℕ
  pub inet_pton : Bytes → Option Bytes
  pub thread : Log Call → ℤ
  pub new_fd : Log Call → ℤ
  pub bound : Log Call → ℤ
  pub sent : Log Call → ℤ
  pub received : Log Call → Option Bytes

-- The static variables that the code reads, and the log.
pub record State : Type 0 where
  pub server_socket : ℤ
  pub server_buffer : Bytes
  pub log : Log Call

-- SERVER_BUFFER_SIZE
abbrev pub server_buffer_size : ℕ
server_buffer_size = 64

-- `in6addr_any`
abbrev pub any_addr : Bytes
any_addr = 0 ∷ 0 ∷ 0 ∷ 0 ∷ 0 ∷ 0 ∷ 0 ∷ 0 ∷ 0 ∷ 0 ∷ 0 ∷ 0 ∷ 0 ∷ 0 ∷ 0 ∷ 0 ∷ []

abbrev pub say : Event Call → Prog State Unit
say e = modify (λ s. record s { log = e ∷ s.log })

-- A call whose answer the code reads.
abbrev pub ask : {A : Type 0} → Call → (Log Call → A) → Prog State A
ask c answer s = let l = call c ∷ s.log in some (answer l, record s { log = l })

abbrev pub set_socket : ℤ → Prog State Unit
set_socket fd = modify (λ s. record s { server_socket = fd })

-- The text that an array holds, up to its NUL; without one, C reads past the array.
unfoldable pub c_string : Bytes → Option Bytes
c_string [] = none
c_string (c ∷ cs) =
    let rest = c_string cs in
    if c == 0 then some [] else elim rest [ none ↦ none | some text ↦ some (c ∷ text) ]

module _ (env : Env) where
  -- From `bind` to the loop. The result is whether the loop is entered.
  bind_server : ℤ → ℕ → Prog State Bool
  bind_server fd port = do
    let server_addr : SockaddrIn6 = record {
      sin6_addr = any_addr;
      sin6_port = env.htons port;
      sin6_scope_id = env.old_scope;
    }
    res ← ask (bind fd server_addr) env.bound
    if is_neg res
        then (do set_socket (negsuc 0); say (puts "error binding socket"); pure false)
        else do say (printf "Success: started UDP server on port %u\n" (num port ∷ [])); pure true

  -- The thread up to its loop. The result is whether the loop is entered.
  pub server_thread : Bytes → Prog State Bool
  server_thread args = do
    say (call msg_init_queue)
    fd ← ask socket env.new_fd
    set_socket fd
    if u16 (atoi args) == 0
        then (do say (puts "Error: invalid port specified"); pure false)
        else if is_neg fd
        then (do say (puts "error initializing socket"); set_socket (pos 0); pure false)
        else bind_server fd (u16 (atoi args))

  -- `puts(server_buffer)`
  show : Option Bytes → Prog State Unit
  show none = lift none
  show (some text) = say (printf "%s\n" (str text ∷ []))

  heard : Option Bytes → Prog State Unit
  heard none = say (puts "Error on receive")
  heard (some []) = say (puts "Peer did shut down")
  heard (some (c ∷ cs)) = do
    modify (λ s. record s { server_buffer = c ∷ cs ++ drop (suc (length cs)) s.server_buffer })
    say (printf "Received data: " [])
    text ← gets (λ s. c_string s.server_buffer)
    show text

  -- One round of the thread's loop.
  pub receive_round : Prog State Unit
  receive_round = do
    fd ← gets (λ s. s.server_socket)
    res ← ask (recvfrom fd) env.received
    heard res

  -- `dst.sin6_scope_id`, from the interface that the address names.
  scope_of : Option Bytes → Prog State ℕ
  scope_of none = pure env.old_scope
  scope_of (some iface) = elim (env.netif iface) [
    | none ↦ do say (printf "unknown network interface %s\n" (str iface ∷ [])); pure env.old_scope
    | some id ↦ pure (u32 (pos id))
  ]

  -- The address without its interface, and the scope.
  pub split_scope : Bytes → Prog State (Bytes × ℕ)
  split_scope addr_str =
      if env.sock_has_ipv6
      then (do
        scope ← scope_of (env.split_iface addr_str).1
        pure ((env.split_iface addr_str).0, scope))
      else pure (addr_str, env.old_scope)

  -- One round of the loop of `udp_send`.
  unfoldable pub send_round : ℤ → Bytes → ℕ → Bytes → SockaddrIn6 → ℕ → Prog State Unit
  send_round fd addr_str port text dst delay = do
    res ← ask (sendto fd text dst) env.sent
    if is_neg res
        then say (puts "could not send")
        else say (
            printf "Success: send %u byte to %s:%u\n"
              (num (length text) ∷ str addr_str ∷ num port ∷ []))
    say (call (usleep delay))

  -- `src` is filled by the code and not read.
  send_to : Option Bytes → Bytes → ℕ → ℕ → Bytes → ℕ → ℕ → Prog State ℕ
  send_to none addr_str scope port text n delay = do
    say (puts "Error: unable to parse destination address")
    pure 1
  send_to (some addr) addr_str scope port text n delay = do
    let dst : SockaddrIn6 = record {
      sin6_addr = addr;
      sin6_port = env.htons port;
      sin6_scope_id = scope;
    }
    fd ← ask socket env.new_fd
    if is_neg fd then (do say (puts "error initializing socket"); pure 1) else do
      for_range n (send_round fd addr_str port text dst delay)
      say (call (close fd))
      pure 0

  pub udp_send : Bytes → Bytes → Bytes → ℕ → ℕ → Prog State ℕ
  udp_send addr_str port_str text n delay = do
    (addr_str', scope) ← split_scope addr_str
    send_to (env.inet_pton addr_str') addr_str' scope (u16 (atoi port_str)) text n delay

  unfoldable pub udp_start_server : Bytes → Prog State ℕ
  udp_start_server port_str = do
    fd ← gets (λ s. s.server_socket)
    if is_neg fd
        then (do
          pid ← ask (thread_create port_str) env.thread
          if is_nonpos pid
              then (do set_socket (negsuc 0); say (puts "error initializing thread"); pure 1)
              else pure 0)
        else do say (puts "Error: server already running"); pure 1

  -- `if (argc > i) x = atoi(argv[i]);`
  unfoldable pub optional_arg : List Bytes → ℕ → ℕ → Prog State ℕ
  optional_arg argv i default =
      if ltb i (length argv)
      then (do text ← lift (get_elem? argv i); pure (u32 (atoi text)))
      else pure default

  cmd_send : List Bytes → Prog State ℕ
  cmd_send argv =
      if ltb (length argv) 5
      then (do
        name ← lift (get_elem? argv 0)
        say (printf "usage: %s send <addr> <port> <data> [<num> [<delay in us>]]\n" (str name ∷ []))
        pure 1)
      else do
        n ← optional_arg argv 5 1
        delay ← optional_arg argv 6 1000000
        addr ← lift (get_elem? argv 2)
        port ← lift (get_elem? argv 3)
        text ← lift (get_elem? argv 4)
        udp_send addr port text n delay

  cmd_start : List Bytes → Prog State ℕ
  cmd_start argv =
      if ltb (length argv) 4
      then (do
        name ← lift (get_elem? argv 0)
        say (printf "usage %s server start <port>\n" (str name ∷ []))
        pure 1)
      else do port ← lift (get_elem? argv 3); udp_start_server port

  cmd_server : List Bytes → Prog State ℕ
  cmd_server argv =
      if ltb (length argv) 3
      then (do
        name ← lift (get_elem? argv 0)
        say (printf "usage: %s server [start|stop]\n" (str name ∷ []))
        pure 1)
      else do
        verb ← lift (get_elem? argv 2)
        if str_eq verb (codes "start")
            then cmd_start argv
            else do say (puts "error: invalid command"); pure 1

  pub udp_cmd : List Bytes → Prog State ℕ
  udp_cmd argv =
      if ltb (length argv) 2
      then (do
        name ← lift (get_elem? argv 0)
        say (printf "usage: %s [send|server]\n" (str name ∷ []))
        pure 1)
      else do
        verb ← lift (get_elem? argv 1)
        if str_eq verb (codes "send")
            then cmd_send argv
            else if str_eq verb (codes "server")
            then cmd_server argv
            else do say (puts "error: invalid command"); pure 1
