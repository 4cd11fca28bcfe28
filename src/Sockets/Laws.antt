-- ===== src/Sockets/Laws.antt =====
-- examples/native-sockets/main/udp.c: what `udp_send` does.
use studio.Base.{
  ℕ, suc, Option, none, some, ◌∷◌, if◌then◌else◌, ℤ, pos, negsuc, is_neg, u16, Bytes, pure, Returns,
  Returns-map, Returns-bind, Returns-then, Returns-for_range, for_range, ◌>>◌, calls, ◌≡◌, refl, ap,
  ◌∙◌, arith, call, puts, Log,
}
use native.Mathlib.Nat.{add-zero}
use studio.Libc.{atoi}
use studio.Lwip.Sock.{rounds}
use studio.Sockets.{
  SockaddrIn6, Call, socket, sendto, usleep, close, Env, State, say, split_scope, send_round,
  send_to, udp_send,
}
use studio.Sockets.Scope.{SameVars, Quiet, target, split_scope_lem}

module _ (env : Env) where
  abbrev SentRounds : ℤ → Bytes → SockaddrIn6 → ℕ → State → ℕ → State → Type 0
  SentRounds fd text dst delay s n t =
      (calls t.log ≡ rounds n (sendto fd text dst) (usleep delay) (calls s.log)) × SameVars s t

  send_round_lem :
      (fd : ℤ) (addr : Bytes) (port : ℕ) (text : Bytes) (dst : SockaddrIn6) (delay : ℕ) (s : State)
      (k : ℕ) (t : State)
      → SentRounds fd text dst delay s k t
      → Returns
          (λ _ u. SentRounds fd text dst delay s (suc k) u)
          (send_round env fd addr port text dst delay t)
  unfolding send_round
  send_round_lem fd addr port text dst delay s k t h = ground arith

  send_loop_lem :
      (fd : ℤ) (addr : Bytes) (port : ℕ) (text : Bytes) (dst : SockaddrIn6) (delay n : ℕ)
      (s : State)
      → Returns
          (λ _ t. SentRounds fd text dst delay s n t)
          (for_range n (send_round env fd addr port text dst delay) s)
  send_loop_lem fd addr port text dst delay n s =
      Returns-for_range (SentRounds fd text dst delay s) _
        (send_round_lem fd addr port text dst delay s) n 0 n s (add-zero n) (refl, (refl, refl))

  abbrev pub dst_of : Bytes → ℕ → ℕ → SockaddrIn6
  dst_of addr port scope = record {
    sin6_addr = addr;
    sin6_port = env.htons port;
    sin6_scope_id = scope;
  }

  -- What is done with the descriptor that `socket` returned.
  abbrev pub SendsOn : ℤ → SockaddrIn6 → Bytes → ℕ → ℕ → State → ℕ → State → Type 0
  SendsOn (negsuc e) dst text n delay s r t =
      (r ≡ 1) × (calls t.log ≡ socket ∷ calls s.log) × SameVars s t
  SendsOn (pos fd) dst text n delay s r t =
      (r ≡ 0)
      × (calls t.log
          ≡ close (pos fd)
            ∷ rounds n (sendto (pos fd) text dst) (usleep delay) (socket ∷ calls s.log))
      × SameVars s t

  -- What a send must have done, by the destination that `inet_pton` read.
  abbrev pub Sends : Option Bytes → ℕ → ℕ → Bytes → ℕ → ℕ → ℤ → State → ℕ → State → Type 0
  Sends none scope port text n delay fd s r t = (r ≡ 1) × (calls t.log ≡ calls s.log) × SameVars s t
  Sends (some addr) scope port text n delay fd s r t =
      SendsOn fd (dst_of addr port scope) text n delay s r t

  send_fd_lem :
      (fd : ℤ) (addr_str : Bytes) (dst : SockaddrIn6) (port : ℕ) (text : Bytes) (n delay : ℕ)
      (s : State)
      → Returns (SendsOn fd dst text n delay s) (
          (if is_neg fd then (do say (puts "error initializing socket"); pure 1) else do
            for_range n (send_round env fd addr_str port text dst delay)
            say (call (close fd))
            pure 0)
            (record s { log = call socket ∷ s.log }))
  send_fd_lem (negsuc e) addr_str dst port text n delay s = (refl, refl, (refl, refl))
  send_fd_lem (pos fd) addr_str dst port text n delay s =
      let s' = record s { log = call socket ∷ s.log } in
      Returns-then (for_range n (send_round env (pos fd) addr_str port text dst delay))
        (λ _ t. SentRounds (pos fd) text dst delay s' n t) (SendsOn (pos fd) dst text n delay s)
        (do say (call (close (pos fd))); pure 0) s'
        (send_loop_lem (pos fd) addr_str port text dst delay n s')
        (λ _ t h. (refl, ap (◌∷◌ (close (pos fd))) h.0, h.1))

  send_to_lem :
      (found : Option Bytes) (addr_str : Bytes) (scope port : ℕ) (text : Bytes) (n delay : ℕ)
      (s : State)
      → Returns
          (Sends found scope port text n delay (env.new_fd (call socket ∷ s.log)) s)
          (send_to env found addr_str scope port text n delay s)
  unfolding send_to
  send_to_lem none addr_str scope port text n delay s = (refl, refl, (refl, refl))
  send_to_lem (some addr) addr_str scope port text n delay s =
      send_fd_lem (env.new_fd (call socket ∷ s.log)) addr_str (dst_of addr port scope) port text n
        delay s

  SendsOn-same :
      (fd : ℤ) (dst : SockaddrIn6) (text : Bytes) (n delay : ℕ) (s s' : State) (r : ℕ) (t : State)
      → Quiet s s'
      → SendsOn fd dst text n delay s' r t
      → SendsOn fd dst text n delay s r t
  SendsOn-same (negsuc e) dst text n delay s s' r t q h =
      (h.0, h.1 ∙ ap (◌∷◌ socket) q.0, (h.2.0 ∙ q.1.0, h.2.1 ∙ q.1.1))
  SendsOn-same (pos fd) dst text n delay s s' r t q h = (
    h.0,
    h.1
        ∙ ap (λ l. close (pos fd) ∷ rounds n (sendto (pos fd) text dst) (usleep delay) (socket ∷ l))
            q.0,
    (h.2.0 ∙ q.1.0, h.2.1 ∙ q.1.1),
  )

  Sends-same :
      (found : Option Bytes) (scope port : ℕ) (text : Bytes) (n delay : ℕ) (fd : ℤ) (s s' : State)
      (r : ℕ) (t : State)
      → Quiet s s'
      → Sends found scope port text n delay fd s' r t
      → Sends found scope port text n delay fd s r t
  Sends-same none scope port text n delay fd s s' r t q h =
      (h.0, h.1 ∙ q.0, (h.2.0 ∙ q.1.0, h.2.1 ∙ q.1.1))
  Sends-same (some addr) scope port text n delay fd s s' r t q h =
      SendsOn-same fd (dst_of addr port scope) text n delay s s' r t q h

  -- `Sends` for the descriptor that `socket` returned, after whatever lines were printed before.
  abbrev pub SendsFrom : Bytes × ℕ → ℕ → Bytes → ℕ → ℕ → State → ℕ → State → Type 0
  SendsFrom (addr, scope) port text n delay s r t =
      (l : Log Call) × (calls l ≡ calls s.log)
      × Sends (env.inet_pton addr) scope port text n delay (env.new_fd (call socket ∷ l)) s r t

  send_from_lem :
      (at : Bytes × ℕ) (port : ℕ) (text : Bytes) (n delay : ℕ) (s s' : State)
      → Quiet s s'
      → Returns
          (SendsFrom at port text n delay s)
          (send_to env (env.inet_pton at.0) at.0 at.1 port text n delay s')
  send_from_lem (addr, scope) port text n delay s s' q =
      Returns-map
        (Sends (env.inet_pton addr) scope port text n delay (env.new_fd (call socket ∷ s'.log)) s')
        (SendsFrom (addr, scope) port text n delay s)
        (send_to env (env.inet_pton addr) addr scope port text n delay s')
        (λ r t h.
          (s'.log, q.0, Sends-same (env.inet_pton addr) scope port text n delay _ s s' r t q h))
        (send_to_lem (env.inet_pton addr) addr scope port text n delay s')

  -- `udp_send` returns. It parses the address without its interface: one that is not understood
  -- fails with status 1 before any call, and so does a socket that cannot be made, after the
  -- attempt. Else it makes `n` rounds of a send of the whole text to the address, port and scope
  -- that were named and a sleep, whether or not a send fails, and closes the socket that it made.
  -- The server's variables stay as they were.
  pub sockets_udp_send_lem :
      (addr port text : Bytes) (n delay : ℕ) (s : State)
      → Returns
          (SendsFrom (target env addr) (u16 (atoi port)) text n delay s)
          (udp_send env addr port text n delay s)
  unfolding udp_send
  sockets_udp_send_lem addr port text n delay s =
      Returns-bind (split_scope env addr) (λ r t. (r ≡ target env addr) × Quiet s t)
        (SendsFrom (target env addr) (u16 (atoi port)) text n delay s)
        (λ at. send_to env (env.inet_pton at.0) at.0 at.1 (u16 (atoi port)) text n delay) s
        (split_scope_lem env addr s)
        (λ at t h. rw h.0 (send_from_lem (target env addr) (u16 (atoi port)) text n delay s t h.1))
