-- ===== src/Tests/Sockets.antt =====
-- The commands of native-sockets at a concrete system.
use studio.Base.{
  ℕ, zero, suc, ◌==◌, true, false, none, some, List, [], ◌∷◌, ◌++◌, replicate, length-replicate,
  calls, for_range, pos, not, u16, Bytes, codes, Returns, ◌≡◌, refl, arith,
}
use studio.Libc.{atoi}
use studio.Sockets
use studio.Sockets.Command.{Meets, sockets_udp_cmd_lem}
use studio.Sockets.Server.{IsValid, NoNul, receive_rounds_lem, receive_overruns}
use studio.Sockets.Thread.{Binds, Refuses, sockets_server_thread_lem, server_thread_blocks}

abbrev with_datagram : Bytes → Sockets.Env
with_datagram d = record {
  sock_has_ipv6 = true;
  htons = λ n. n;
  old_scope = 0;
  split_iface = λ addr. (addr, none);
  netif = λ name. none;
  inet_pton = λ addr. some Sockets.any_addr;
  thread = λ l. pos 3;
  new_fd = λ l. pos 4;
  bound = λ l. pos 0;
  sent = λ l. pos 2;
  received = λ l. some d;
}

abbrev env : Sockets.Env
env = with_datagram (codes "hi")

abbrev state : Sockets.State
state = record { server_socket = pos 4; server_buffer = replicate 64 0; log = [] }

abbrev line : List Bytes
line = codes "send" ∷ codes "::1" ∷ codes "4711" ∷ codes "hello" ∷ codes "2" ∷ []

sockets_udp_cmd_lem_example :
    Returns
      (Meets env (Sockets.Command.request line) state)
      (Sockets.udp_cmd env (codes "udp" ∷ line) state)
sockets_udp_cmd_lem_example = sockets_udp_cmd_lem env (codes "udp") line state

state-IsValid : IsValid state
state-IsValid = record { sized = length-replicate {A = ℕ} 64 0; ended = refl }

receive_rounds_lem_example :
    Returns
      (λ _ t.
        (calls t.log ≡ Sockets.recvfrom (pos 4) ∷ Sockets.recvfrom (pos 4) ∷ [])
        × (t.server_socket ≡ pos 4)
        × IsValid t)
      (for_range 2 (Sockets.receive_round env) state)
receive_rounds_lem_example = receive_rounds_lem env 2 state (λ l. omega arith) state-IsValid

-- A datagram that fills the buffer.
abbrev long : Bytes
long = b'x' ∷ replicate 63 b'x'

NoNul-replicate : (n : ℕ) → NoNul (replicate n b'x')
NoNul-replicate zero = tt
NoNul-replicate (suc n) = (refl, NoNul-replicate n)

receive_overruns_example : Sockets.receive_round (with_datagram long) state ≡ none
receive_overruns_example =
    receive_overruns (with_datagram long) b'x' (replicate 63 b'x') state refl (NoNul-replicate 64)
      (length-replicate {A = ℕ} 64 b'x') (length-replicate {A = ℕ} 64 0)

abbrev left_over : Sockets.State
left_over = record {
  server_socket = pos 4;
  server_buffer = codes "hello" ++ replicate 59 0;
  log = [];
}

sockets_server_thread_lem_example :
    Returns
      (Binds env (u16 (atoi (codes "4711")) == 0) (pos 4) false (u16 (atoi (codes "4711"))) state)
      (Sockets.server_thread env (codes "4711") state)
sockets_server_thread_lem_example = sockets_server_thread_lem env (codes "4711") state

no_port : false ≡ not (u16 (atoi (codes "x")) == 0)
unfolding atoi
no_port = refl

server_thread_blocks_example :
    Returns (λ r t. (r ≡ false) × Refuses env t) (Sockets.server_thread env (codes "x") state)
server_thread_blocks_example = server_thread_blocks env (codes "x") state no_port
