-- ===== src/Tests/Lwip.antt =====
-- `udp` and `ip` of native-lwip at a concrete system.
use studio.Base.{
  ℕ, true, false, none, some, List, [], ◌∷◌, call, printf, num, replicate, length-replicate, pos,
  Bytes, codes, Returns, ◌≡◌, refl, arith,
}
use studio.Libc.{atoi}
use studio.Lwip.Sock.{unspec, inet6, Endpoint, AsyncFlags}
use studio.Lwip.Udp
use studio.Lwip.Udp.Command.{udp_cmd_lem}
use studio.Lwip.Udp.Reach.{IsValid, here, next, thread, Reach-IsValid}
use studio.Lwip.Ip
use studio.Lwip.Ip.Command.{ip_cmd_lem}
use studio.Lwip.Ip.Server.{ip_recv_lem}

abbrev any : Endpoint
any = record { family = unspec; addr = []; port = 0 }

abbrev peer : Endpoint
peer = record { family = inet6; addr = 0xfe ∷ 0x80 ∷ []; port = 4711 }

abbrev word : Bytes
word = codes "abc"

abbrev udp_env : Udp.Env
udp_env = record {
  sock_ip_ep_any = any;
  shell_bufsize = 32;
  byte_data = replicate 16 0;
  str2ep = λ text. some peer;
  ep_fmt = λ ep. some (codes "fe80::1", 4711);
  thread = λ l. pos 3;
  create = λ l. pos 0;
  send = λ l. pos 2;
  recv = λ l. some (word, peer);
}

abbrev udp_state : Udp.State
udp_state = record { server_running = false; sock_inbuf = replicate 256 0; log = [] }

abbrev message : AsyncFlags
message = record { conn_recv = false; conn_fin = false; msg_recv = true }

abbrev send_line : List Bytes
send_line = codes "send" ∷ codes "[fe80::1]:4711" ∷ codes "ab0" ∷ codes "2" ∷ codes "10" ∷ []

udp_cmd_lem_example :
    Returns
      (Udp.Command.Meets udp_env (Udp.Command.request send_line) udp_state)
      (Udp.udp_cmd udp_env (codes "udp" ∷ send_line) udp_state)
udp_cmd_lem_example =
    udp_cmd_lem udp_env (codes "udp") send_line udp_state refl
      (omega arith, (omega arith, (omega arith, (omega arith, (omega arith, tt)))))

abbrev listening : Endpoint
listening = record (any) { port = 4711 }

abbrev udp_served : Udp.State
udp_served = record {
  server_running = true;
  sock_inbuf = replicate 256 0;
  log =
      call Udp.sock_udp_event_init
      ∷ printf "Success: started UDP server on port %u\n" (num 4711 ∷ [])
      ∷ call (Udp.sock_udp_create listening)
      ∷ [];
}

served_runs : Udp.server_thread udp_env (codes "4711") udp_state ≡ some (tt, udp_served)
unfolding Udp.server_thread atoi
served_runs = refl

Reach-IsValid_example : IsValid udp_env udp_served
Reach-IsValid_example =
    Reach-IsValid udp_env refl (λ l. omega arith)
      (record { running = refl; sized = length-replicate {A = ℕ} 256 0 })
      (next here (thread (codes "4711") served_runs))

abbrev ip_env : Ip.Env
ip_env = record {
  ipv6_used = true;
  ipv4_used = false;
  sock_ip_ep_any = any;
  shell_bufsize = 32;
  byte_data = replicate 16 0;
  ipv6_from_str = λ text. some (0xfe ∷ 0x80 ∷ []);
  ipv4_from_str = λ text. none;
  ipv6_to_str = λ addr. codes "fe80::";
  ipv4_to_str = λ addr. [];
  thread = λ l. pos 3;
  create = λ l. pos 0;
  send = λ l. pos 2;
  recv = λ l. some (word, peer);
}

abbrev ip_state : Ip.State
ip_state = record { server_running = true; sock_inbuf = replicate 256 0; log = [] }

abbrev ip_line : List Bytes
ip_line = codes "send" ∷ codes "fe80::1" ∷ codes "59" ∷ codes "ab0" ∷ []

ip_cmd_lem_example :
    Returns
      (Ip.Command.Meets ip_env (Ip.Command.request ip_line) ip_state)
      (Ip.ip_cmd ip_env (codes "ip" ∷ ip_line) ip_state)
ip_cmd_lem_example =
    ip_cmd_lem ip_env (codes "ip") ip_line ip_state refl
      (omega arith, (omega arith, (omega arith, (omega arith, tt))))

no_colon : Ip.has_colon (codes "192.0.2.1") ≡ false
unfolding Ip.has_colon
no_colon = refl

ip_recv_lem_example :
    Returns
      (λ _ t. Ip.Server.Handles ip_env true ip_state t × Ip.Server.Undisturbed ip_env ip_state t)
      (Ip.ip_recv ip_env message (codes "test") ip_state)
ip_recv_lem_example =
    ip_recv_lem ip_env message ip_state (λ l. omega arith) (length-replicate {A = ℕ} 256 0)
