-- ===== src/Lwip/Tcp/Events.antt =====
-- examples/native-lwip/main/tcp.c: the server's thread. It ends in `event_loop`, which calls
-- `tcp_accept` for an event of the queue and `tcp_recv` for one of a connection.
pub mod Server
use studio.Base.{
  ℕ, zero, suc, ◌+◌, ◌≤◌, ◌/◌, Bool, true, false, ◌&&◌, Option, none, some, List, [], ◌∷◌, ◌++◌,
  length, get_elem?, take, drop, ltb, leb, ◌==◌, if◌then◌else◌, ℤ, is_neg, is_nonpos, neg, u16, u32,
  Bytes, codes, str_eq, Prog, pure, lift, gets, modify, ◌>>=◌, ◌>>◌, for_range, Event, puts, printf,
  od_hex_dump, call, Val, num, int, str, Log, ◌≡◌, String,
}
use studio.Libc.{atoi}
use studio.Lwip.Hex.{hex2ints}
use studio.Lwip.Sock.{Endpoint, AsyncFlags}
use studio.Lwip.Tcp.{
  Sock, queued, Call, sock_tcp_listen, sock_tcp_queue_event_init, sock_tcp_accept,
  sock_tcp_event_init, sock_tcp_disconnect, sock_tcp_read, Env, State, say, ask, expect,
}

module _ (env : Env) where
  -- `sock_tcp_ep_fmt(&client, _addr_str, &port)`: the port that is in `port` afterwards.
  format_to : Option (Bytes × ℕ) → Prog State ℕ
  format_to none = pure env.old_port
  format_to (some (text, port)) = do modify (λ s. record s { addr_str = text }); pure port

  -- What a read that is no error leaves in `sock_inbuf`, and what is printed of it.
  unfoldable pub chunk : Bytes → ℕ → State → State
  chunk data_in port s =
      let inbuf = data_in ++ drop (length data_in) s.sock_inbuf in
      let heard =
        printf "Received TCP data from client [%s]:%u\n" (str s.addr_str ∷ num port ∷ []) in
      record s {
        sock_inbuf = inbuf;
        log =
            (if ltb 0 (length data_in)
              then od_hex_dump (take (length data_in) inbuf)
              else puts "(nul)")
            ∷ heard
            ∷ s.log;
      }

  -- The loop of reads, for as many rounds as `fuel`; `none` says that there would be more.
  read_loop : ℕ → Sock → ℕ → Prog State Unit
  read_loop zero sock port s = none
  read_loop (suc fuel) sock port s =
      let asked = record s { log = call (sock_tcp_read sock) ∷ s.log } in
      elim (env.read (call (sock_tcp_read sock) ∷ s.log)) [
        | none ↦ some (tt, asked)
        | some data_in ↦ read_loop fuel sock port (chunk data_in port asked)
      ]

  finish : Sock → ℕ → Bool → Prog State Unit
  finish sock port false = pure tt
  finish sock port true = do
    addr_str ← gets (λ s. s.addr_str)
    say (printf "TCP connection to [%s]:%u reset\n" (str addr_str ∷ num port ∷ []))
    say (call (sock_tcp_disconnect sock))

  serve : ℕ → Sock → AsyncFlags → Option Endpoint → Prog State Unit
  serve fuel sock flags none = pure tt
  serve fuel sock flags (some client) = do
    port ← format_to (env.ep_fmt client)
    if flags.msg_recv then read_loop fuel sock port else pure tt
    finish sock port flags.conn_fin

  pub tcp_recv : ℕ → Sock → AsyncFlags → Bytes → Prog State Unit
  tcp_recv fuel sock flags arg = do
    expect (str_eq arg (codes "test"))
    client ← gets (λ s. env.remote sock s.log)
    serve fuel sock flags client

  remote_or_old : Option Endpoint → Endpoint
  remote_or_old none = env.old_remote
  remote_or_old (some client) = client

  accepted : Option ℕ → Prog State Unit
  accepted none = do
    e ← gets (λ s. env.accept_error s.log)
    say (printf "Error on TCP accept [%d]\n" (int e ∷ []))
  accepted (some i) = do
    say (call (sock_tcp_event_init (queued i)))
    client ← gets (λ s. remote_or_old (env.remote (queued i) s.log))
    port ← format_to (env.ep_fmt client)
    addr_str ← gets (λ s. s.addr_str)
    say (printf "TCP client [%s]:%u connected\n" (str addr_str ∷ num port ∷ []))

  accept_one : Prog State Unit
  accept_one = do res ← ask sock_tcp_accept env.accept; accepted res

  pub tcp_accept : AsyncFlags → Bytes → Prog State Unit
  tcp_accept flags arg = do
    expect (str_eq arg (codes "test"))
    if flags.conn_recv then accept_one else pure tt

  -- Up to `event_loop`, or to the return; the set-up of the thread's own queues is left out.
  unfoldable pub server_thread : Bytes → Prog State Unit
  server_thread args = do
    let server_addr = record (env.sock_ip_ep_any) { port = u16 (atoi args) }
    res ← ask (sock_tcp_listen server_addr) env.listen
    if is_neg res
        then say (
            printf "Unable to open TCP server on port %u (error code %d)\n"
              (num server_addr.port ∷ int (neg res) ∷ []))
        else do
          modify (λ s. record s { server_running = true })
          say (printf "Success: started TCP server on port %u\n" (num server_addr.port ∷ []))
          say (call sock_tcp_queue_event_init)
