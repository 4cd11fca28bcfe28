-- ===== src/Lwip/Udp/Laws.antt =====
-- udp.c: what the commands do, for every command line.
use studio.Base.{
  ℕ, suc, ◌<◌, ◌/◌, Option, none, some, length, ◌==◌, if◌then◌else◌, Bytes, pure, Returns,
  Returns-then, Returns-for_range, for_range, ◌>>◌, calls, ◌≡◌, refl, inl, inr, arith, Bool-cases,
  take-append,
}
use native.Mathlib.Nat.{add-zero}
use studio.Lwip.Hex.Decode.{decode}
use studio.Lwip.Hex.Bounds.{hex2ints_fits}
use studio.Lwip.Sock.{Endpoint, rounds}
use studio.Lwip.Udp.{sock_udp_send, usleep, Env, State, send_round, send_to, udp_send}

-- Nothing but the log has changed.
abbrev pub SameVars : State → State → Type 0
SameVars s t = (t.server_running ≡ s.server_running) × (t.sock_inbuf ≡ s.sock_inbuf)

module _ (env : Env) where
  abbrev SentRounds : Bytes → Endpoint → ℕ → State → ℕ → State → Type 0
  SentRounds payload dst delay s n t =
      SameVars s t
      × (calls t.log
          ≡ rounds n (sock_udp_send s.server_running payload dst) (usleep delay) (calls s.log))

  send_round_lem :
      (addr payload : Bytes) (dst : Endpoint) (delay : ℕ) (s : State) (k : ℕ) (t : State)
      → SentRounds payload dst delay s k t
      → Returns
          (λ _ u. SentRounds payload dst delay s (suc k) u)
          (send_round env addr payload dst delay t)
  unfolding send_round
  send_round_lem addr payload dst delay s k t h = ground arith

  send_loop_lem :
      (addr payload : Bytes) (dst : Endpoint) (delay n : ℕ) (s : State)
      → Returns
          (λ _ t. SentRounds payload dst delay s n t)
          (for_range n (send_round env addr payload dst delay) s)
  send_loop_lem addr payload dst delay n s =
      Returns-for_range (SentRounds payload dst delay s) _ (send_round_lem addr payload dst delay s)
        n 0 n s (add-zero n) ((refl, refl), refl)

  -- What a `send` must have done: for no usable destination nothing, with status 1.
  abbrev pub Sends : Option Endpoint → Bytes → ℕ → ℕ → State → ℕ → State → Type 0
  Sends none payload n delay s r t = (r ≡ 1) × (calls t.log ≡ calls s.log) × SameVars s t
  Sends (some dst) payload n delay s r t =
      (r ≡ 0)
      × (calls t.log
          ≡ rounds n (sock_udp_send s.server_running payload dst) (usleep delay) (calls s.log))
      × SameVars s t

  send_all_lem :
      (addr payload : Bytes) (dst : Endpoint) (delay n : ℕ) (s : State)
      → Returns
          (Sends (some dst) payload n delay s)
          ((for_range n (send_round env addr payload dst delay) >> pure 0) s)
  send_all_lem addr payload dst delay n s =
      Returns-then (for_range n (send_round env addr payload dst delay))
        (λ _. SentRounds payload dst delay s n) (Sends (some dst) payload n delay s) (pure 0) s
        (send_loop_lem addr payload dst delay n s) (λ _ t q. (refl, q.1, q.0))

  -- A destination can be used if it was understood and has a port.
  abbrev pub usable : Option Endpoint → Option Endpoint
  usable none = none
  usable (some dst) = if dst.port == 0 then none else some dst

  send_to_lem :
      (found : Option Endpoint) (addr text : Bytes) (n delay : ℕ) (s : State)
      → length env.byte_data ≡ env.shell_bufsize / 2
      → length text < env.shell_bufsize
      → Returns
          (Sends (usable found) (decode text) n delay s)
          (send_to env found addr text n delay s)
  unfolding send_to
  send_to_lem none addr text n delay s e h = (refl, refl, (refl, refl))
  send_to_lem (some dst) addr text n delay s e h = elim (Bool-cases (dst.port == 0)) [
    | inl missing ↦ rw missing (refl, refl, (refl, refl))
    | inr given ↦
        rw (given, hex2ints_fits env.shell_bufsize env.byte_data text e h, take-append)
          (send_all_lem addr (decode text) dst delay n s)
  ]

  -- `udp_send` returns. Without a destination that has a port it fails before any call. Else it
  -- makes `n` rounds of a send of the decoded bytes, from the server's socket exactly if the
  -- server runs, and a sleep, whether or not a send fails. Whether the server runs stays as it was.
  pub udp_send_lem :
      (addr text : Bytes) (n delay : ℕ) (s : State)
      → length env.byte_data ≡ env.shell_bufsize / 2
      → length text < env.shell_bufsize
      → Returns
          (Sends (usable (env.str2ep addr)) (decode text) n delay s)
          (udp_send env addr text n delay s)
  unfolding udp_send
  udp_send_lem addr text n delay s e h = send_to_lem (env.str2ep addr) addr text n delay s e h
