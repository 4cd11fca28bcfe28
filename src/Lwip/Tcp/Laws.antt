-- ===== src/Lwip/Tcp/Laws.antt =====
-- tcp.c: the client's side, for every state and every text.
use studio.Base.{
  ℕ, suc, ◌<◌, ◌/◌, Bool, true, false, Option, none, some, ◌∷◌, length, ◌==◌, if◌then◌else◌, is_neg,
  u16, Bytes, pure, Returns, Returns-then, Returns-for_range, for_range, calls, ◌≡◌, refl, inl, inr,
  arith, call, Bool-cases, take-append,
}
use native.Mathlib.Nat.{add-zero}
use studio.Libc.{atoi}
use studio.Lwip.Hex.Decode.{decode}
use studio.Lwip.Hex.Bounds.{hex2ints_fits}
use studio.Lwip.Sock.{Endpoint, rounds}
use studio.Lwip.Tcp.{
  client_sock, sock_tcp_connect, sock_tcp_disconnect, sock_tcp_write, usleep, Env, State, fail,
  connect_from, connect_to, connect_found, tcp_connect, tcp_disconnect, send_round, tcp_send,
}

-- The variables that no command of the client touches.
abbrev pub SameServer : State → State → Type 0
SameServer s t =
    (t.server_running ≡ s.server_running)
    × (t.sock_inbuf ≡ s.sock_inbuf)
    × (t.addr_str ≡ s.addr_str)

abbrev pub SameVars : State → State → Type 0
SameVars s t = (t.client_running ≡ s.client_running) × SameServer s t

-- A command that is refused.
abbrev pub Fails : State → ℕ → State → Type 0
Fails s r t = (r ≡ 1) × (calls t.log ≡ calls s.log) × SameVars s t

module _ (env : Env) where
  -- Where to connect to, if the text is understood and has a port.
  abbrev pub usable : Option Endpoint → Option Endpoint
  usable none = none
  usable (some dst) = if dst.port == 0 then none else some dst

  -- The local port, which is 0 if none is given, and may not be given as 0.
  abbrev pub local_port : Option Bytes → Option ℕ
  local_port none = some 0
  local_port (some text) = if u16 (atoi text) == 0 then none else some (u16 (atoi text))

  -- What one attempt must have done, by whether RIOT refuses it.
  abbrev pub Attempts : Bool → Endpoint → ℕ → State → ℕ → State → Type 0
  Attempts true dst port s r t =
      (r ≡ 1) × (calls t.log ≡ sock_tcp_connect dst port ∷ calls s.log) × SameVars s t
  Attempts false dst port s r t =
      (r ≡ 0)
      × (calls t.log ≡ sock_tcp_connect dst port ∷ calls s.log)
      × (t.client_running ≡ true)
      × SameServer s t

  -- What `tcp_connect` must have done, by `client_running`, the destination and the local port.
  abbrev pub Connects : Bool → Option Endpoint → Option ℕ → State → ℕ → State → Type 0
  Connects false (some dst) (some port) s r t =
      Attempts (is_neg (env.connect (call (sock_tcp_connect dst port) ∷ s.log))) dst port s r t
  Connects false (some dst) none s r t = Fails s r t
  Connects false none port s r t = Fails s r t
  Connects true found port s r t = Fails s r t

  connect_from_lem :
      (dst : Endpoint) (port : ℕ) (s : State)
      → Returns
          (Attempts (is_neg (env.connect (call (sock_tcp_connect dst port) ∷ s.log))) dst port s)
          (connect_from env dst port s)
  unfolding connect_from fail
  connect_from_lem dst port s =
      elim (Bool-cases (is_neg (env.connect (call (sock_tcp_connect dst port) ∷ s.log)))) [
        | inl e ↦ rw e (refl, refl, (refl, (refl, refl, refl)))
        | inr e ↦ rw e (refl, refl, refl, (refl, refl, refl))
      ]

  connect_to_lem :
      (dst : Endpoint) (local : Option Bytes) (s : State)
      → Returns (Connects false (some dst) (local_port local) s) (connect_to env dst local s)
  unfolding connect_to fail
  connect_to_lem dst none s = connect_from_lem dst 0 s
  connect_to_lem dst (some text) s = elim (Bool-cases (u16 (atoi text) == 0)) [
    | inl e ↦ rw e (refl, refl, (refl, (refl, refl, refl)))
    | inr e ↦ rw e (connect_from_lem dst (u16 (atoi text)) s)
  ]

  connect_found_lem :
      (found : Option Endpoint) (local : Option Bytes) (s : State)
      → Returns
          (Connects false (usable found) (local_port local) s)
          (connect_found env found local s)
  unfolding connect_found fail
  connect_found_lem none local s = (refl, refl, (refl, (refl, refl, refl)))
  connect_found_lem (some dst) local s = elim (Bool-cases (dst.port == 0)) [
    | inl e ↦ rw e (refl, refl, (refl, (refl, refl, refl)))
    | inr e ↦ rw e (connect_to_lem dst local s)
  ]

  connect_when :
      (running : Bool) (found : Option Endpoint) (local : Option Bytes) (s : State)
      → Returns (Connects running (usable found) (local_port local) s) (
          (if running then fail env "Client already connected" else connect_found env found local)
            s)
  unfolding fail
  connect_when true found local s = (refl, refl, (refl, (refl, refl, refl)))
  connect_when false found local s = connect_found_lem found local s

  -- `tcp_connect` tries to connect exactly if the client is not connected, the destination is
  -- understood and has a port, and the local port is not given as 0, and then once; it succeeds,
  -- and marks the client as connected, exactly if RIOT does. In every other case it fails with
  -- status 1, makes no call and changes no variable.
  pub tcp_connect_lem :
      (addr : Bytes) (local : Option Bytes) (s : State)
      → Returns
          (Connects s.client_running (usable (env.str2ep addr)) (local_port local) s)
          (tcp_connect env addr local s)
  unfolding tcp_connect fail
  tcp_connect_lem addr local s = connect_when s.client_running (env.str2ep addr) local s

  pub tcp_disconnect_lem :
      (s : State)
      → Returns
          (λ r t.
            (r ≡ 0)
            × (calls t.log ≡ sock_tcp_disconnect client_sock ∷ calls s.log)
            × (t.client_running ≡ false)
            × SameServer s t)
          (tcp_disconnect env s)
  unfolding tcp_disconnect
  tcp_disconnect_lem s = (refl, refl, refl, (refl, refl, refl))

  SentRounds : Bytes → ℕ → State → ℕ → State → Type 0
  SentRounds payload delay s n t =
      (calls t.log ≡ rounds n (sock_tcp_write payload) (usleep delay) (calls s.log)) × SameVars s t

  send_round_lem :
      (payload : Bytes) (delay : ℕ) (s : State) (k : ℕ) (t : State)
      → SentRounds payload delay s k t
      → Returns (λ _ u. SentRounds payload delay s (suc k) u) (send_round env payload delay t)
  unfolding send_round SentRounds
  send_round_lem payload delay s k t h = ground arith

  -- What `tcp_send` must have done.
  abbrev pub Sends : Bytes → ℕ → ℕ → State → ℕ → State → Type 0
  Sends payload n delay s r t =
      (r ≡ 0)
      × (calls t.log ≡ rounds n (sock_tcp_write payload) (usleep delay) (calls s.log))
      × SameVars s t

  -- `tcp_send` returns 0. It makes `n` rounds of a write of the decoded bytes and a sleep, whether
  -- or not a write fails and whether or not the client is connected.
  pub tcp_send_lem :
      (text : Bytes) (n delay : ℕ) (s : State)
      → length env.byte_data ≡ env.shell_bufsize / 2
      → length text < env.shell_bufsize
      → Returns (Sends (decode text) n delay s) (tcp_send env text n delay s)
  unfolding tcp_send SentRounds
  tcp_send_lem text n delay s e h =
      rw (hex2ints_fits env.shell_bufsize env.byte_data text e h, take-append)
        (Returns-then (for_range n (send_round env (decode text) delay))
          (λ _. SentRounds (decode text) delay s n) (Sends (decode text) n delay s) (pure 0) s
          (Returns-for_range (SentRounds (decode text) delay s) _
            (send_round_lem (decode text) delay s) n 0 n s (add-zero n)
            (refl, (refl, (refl, refl, refl))))
          (λ _ t q. (refl, q.0, q.1)))
