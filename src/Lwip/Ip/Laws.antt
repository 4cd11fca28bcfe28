-- ===== src/Lwip/Ip/Laws.antt =====
-- ip.c: what `ip_send` does, for every destination and text.
use studio.Base.{
  ℕ, suc, ◌<◌, ◌/◌, true, false, Option, none, some, length, u8, Bytes, pure, Returns, Returns-then,
  Returns-for_range, for_range, ◌>>◌, calls, ◌≡◌, refl, arith, take-append,
}
use native.Mathlib.Nat.{add-zero}
use std.Path.{subst}
use studio.Libc.{atoi}
use studio.Lwip.Hex.Decode.{decode}
use studio.Lwip.Hex.Bounds.{hex2ints_fits}
use studio.Lwip.Sock.{Endpoint, rounds}
use studio.Lwip.Ip.{
  sock_ip_send, usleep, Env, State, send_round, has_colon, parse_address, send_to, ip_send,
}

-- Nothing but the log has changed.
abbrev pub SameVars : State → State → Type 0
SameVars s t = (t.server_running ≡ s.server_running) × (t.sock_inbuf ≡ s.sock_inbuf)

module _ (env : Env) where
  abbrev SentRounds : ℕ → Bytes → Endpoint → ℕ → State → ℕ → State → Type 0
  SentRounds protocol payload dst delay s n t =
      SameVars s t
      × (calls t.log
          ≡ rounds n (sock_ip_send s.server_running payload protocol dst) (usleep delay)
              (calls s.log))

  send_round_lem :
      (addr : Bytes) (protocol : ℕ) (payload : Bytes) (dst : Endpoint) (delay : ℕ) (s : State)
      (k : ℕ) (t : State)
      → SentRounds protocol payload dst delay s k t
      → Returns
          (λ _ u. SentRounds protocol payload dst delay s (suc k) u)
          (send_round env addr protocol payload dst delay t)
  unfolding send_round
  send_round_lem addr protocol payload dst delay s k t h = ground arith

  send_loop_lem :
      (addr : Bytes) (protocol : ℕ) (payload : Bytes) (dst : Endpoint) (delay n : ℕ) (s : State)
      → Returns
          (λ _ t. SentRounds protocol payload dst delay s n t)
          (for_range n (send_round env addr protocol payload dst delay) s)
  send_loop_lem addr protocol payload dst delay n s =
      Returns-for_range (SentRounds protocol payload dst delay s) _
        (send_round_lem addr protocol payload dst delay s) n 0 n s (add-zero n) ((refl, refl), refl)

  -- What a `send` must have done: for no usable destination nothing, with status 1.
  abbrev pub Sends : Option Endpoint → ℕ → Bytes → ℕ → ℕ → State → ℕ → State → Type 0
  Sends none protocol payload n delay s r t = (r ≡ 1) × (calls t.log ≡ calls s.log) × SameVars s t
  Sends (some dst) protocol payload n delay s r t =
      (r ≡ 0)
      × (calls t.log
          ≡ rounds n (sock_ip_send s.server_running payload protocol dst) (usleep delay)
              (calls s.log))
      × SameVars s t

  send_all_lem :
      (addr : Bytes) (protocol : ℕ) (payload : Bytes) (dst : Endpoint) (delay n : ℕ) (s : State)
      → Returns
          (Sends (some dst) protocol payload n delay s)
          ((for_range n (send_round env addr protocol payload dst delay) >> pure 0) s)
  send_all_lem addr protocol payload dst delay n s =
      Returns-then (for_range n (send_round env addr protocol payload dst delay))
        (λ _. SentRounds protocol payload dst delay s n)
        (Sends (some dst) protocol payload n delay s) (pure 0) s
        (send_loop_lem addr protocol payload dst delay n s) (λ _ t q. (refl, q.1, q.0))

  send_to_lem :
      (found : Option Endpoint) (addr port text : Bytes) (n delay : ℕ) (s : State)
      → length env.byte_data ≡ env.shell_bufsize / 2
      → length text < env.shell_bufsize
      → Returns
          (Sends found (u8 (atoi port)) (decode text) n delay s)
          (send_to env found addr port text n delay s)
  unfolding send_to
  send_to_lem none addr port text n delay s e h = (refl, refl, (refl, refl))
  send_to_lem (some dst) addr port text n delay s e h =
      rw (hex2ints_fits env.shell_bufsize env.byte_data text e h, take-append)
        (send_all_lem addr (u8 (atoi port)) (decode text) dst delay n s)

  -- `ip_send` returns. Without a destination it fails before any call. Else it makes `n` rounds of
  -- a send of the decoded bytes, under the protocol number modulo 256, from the server's socket
  -- exactly if the server runs, and a sleep, whether or not a send fails.
  pub ip_send_lem :
      (addr port text : Bytes) (n delay : ℕ) (s : State)
      → length env.byte_data ≡ env.shell_bufsize / 2
      → length text < env.shell_bufsize
      → Returns
          (Sends (parse_address env addr) (u8 (atoi port)) (decode text) n delay s)
          (ip_send env addr port text n delay s)
  unfolding ip_send
  ip_send_lem addr port text n delay s e h =
      send_to_lem (parse_address env addr) addr port text n delay s e h

  -- In a build with IPv6 alone, an address without a colon is never refused: the datagrams are sent
  -- to the unspecified address.
  pub ip_send_unspecified :
      (addr port text : Bytes) (n delay : ℕ) (s : State)
      → env.ipv6_used ≡ true
      → env.ipv4_used ≡ false
      → has_colon addr ≡ false
      → length env.byte_data ≡ env.shell_bufsize / 2
      → length text < env.shell_bufsize
      → Returns
          (Sends (some env.sock_ip_ep_any) (u8 (atoi port)) (decode text) n delay s)
          (ip_send env addr port text n delay s)
  ip_send_unspecified addr port text n delay s v6 v4 plain e h =
      let any : parse_address env addr ≡ some env.sock_ip_ep_any =
        unfold parse_address in ground arith in
      subst
        (λ dst.
          Returns (Sends dst (u8 (atoi port)) (decode text) n delay s)
            (ip_send env addr port text n delay s))
        any (ip_send_lem addr port text n delay s e h)
