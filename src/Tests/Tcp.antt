-- ===== src/Tests/Tcp.antt =====
-- `tcp` of native-lwip at a concrete system: a peer that has sent one segment.
use studio.Base.{
  true, false, Option, none, some, List, [], ◌∷◌, replicate, length, if◌then◌else◌, ltb, pos,
  negsuc, Bytes, codes, Returns, Log, refl, arith,
}
use studio.Lwip.Sock.{unspec, inet6, Endpoint, AsyncFlags}
use studio.Lwip.Tcp
use studio.Lwip.Tcp.Command.{tcp_cmd_lem}
use studio.Lwip.Tcp.Events.Server.{Answers, tcp_recv_lem}

abbrev any : Endpoint
any = record { family = unspec; addr = []; port = 0 }

abbrev peer : Endpoint
peer = record { family = inet6; addr = 0xfe ∷ 0x80 ∷ []; port = 4711 }

-- The first read has data, and every later one fails.
abbrev read_once : Log Tcp.Call → Option Bytes
read_once l = if ltb (length l) 2 then some (codes "abc") else none

abbrev env : Tcp.Env
env = record {
  sock_ip_ep_any = any;
  shell_bufsize = 32;
  byte_data = replicate 16 0;
  old_remote = any;
  old_port = 0;
  str2ep = λ text. some peer;
  ep_fmt = λ ep. some (codes "fe80::1", 4711);
  thread = λ l. pos 3;
  listen = λ l. pos 0;
  connect = λ l. pos 0;
  write = λ l. pos 2;
  remote = λ sock l. some peer;
  read = read_once;
  accept = λ l. some 0;
  accept_error = λ l. negsuc 10;
}

abbrev state : Tcp.State
state = record {
  server_running = true;
  client_running = false;
  sock_inbuf = replicate 8 0;
  addr_str = [];
  log = [];
}

abbrev line : List Bytes
line = codes "connect" ∷ codes "[fe80::1]:4711" ∷ []

tcp_cmd_lem_example :
    Returns
      (Tcp.Command.Meets env (Tcp.Command.request line) state)
      (Tcp.tcp_cmd env (codes "tcp" ∷ line) state)
tcp_cmd_lem_example = tcp_cmd_lem env (codes "tcp") line state refl (omega arith, (omega arith, tt))

abbrev flags : AsyncFlags
flags = record { conn_recv = true; conn_fin = true; msg_recv = true }

tcp_recv_lem_example :
    Returns
      (λ _ t. Answers env Tcp.client_sock flags 1 state t)
      (Tcp.Events.tcp_recv env 2 Tcp.client_sock flags (codes "test") state)
unfolding Tcp.Events.chunk
tcp_recv_lem_example =
    tcp_recv_lem env 2 1 Tcp.client_sock flags peer state refl (omega arith)
      (codes "abc", refl, refl)
