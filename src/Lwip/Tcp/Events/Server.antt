-- ===== src/Lwip/Tcp/Events/Server.antt =====
-- tcp.c: the handlers of the server's events.
use studio.Base.{
  ℕ, zero, suc, ◌<◌, Bool, true, false, Option, none, some, List, [], ◌∷◌, ◌++◌, replicate,
  if◌then◌else◌, is_neg, u16, Bytes, codes, str_eq, pure, Returns, Returns-map, Returns-then, calls,
  ◌≡◌, refl, ◌∙◌, ap, inl, inr, arith, call, Bool-cases,
}
use studio.Libc.{atoi}
use studio.Lwip.Sock.{Endpoint, AsyncFlags}
use studio.Lwip.Tcp.{
  Sock, queued, Call, sock_tcp_listen, sock_tcp_queue_event_init, sock_tcp_accept,
  sock_tcp_event_init, sock_tcp_disconnect, sock_tcp_read, Env, State,
}
use studio.Lwip.Tcp.Events.{
  format_to, chunk, read_loop, finish, serve, tcp_recv, remote_or_old, accepted, accept_one,
  tcp_accept, server_thread,
}

-- The flags of the two sides.
abbrev pub SameFlags : State → State → Type 0
SameFlags s t = (t.server_running ≡ s.server_running) × (t.client_running ≡ s.client_running)

module _ (env : Env) where
  abbrev after_read : Sock → State → State
  after_read sock s = record s { log = call (sock_tcp_read sock) ∷ s.log }

  -- From this state `k` reads succeed, and the next one does not.
  abbrev pub Ends : Sock → ℕ → ℕ → State → Type 0
  Ends sock port zero s = env.read (call (sock_tcp_read sock) ∷ s.log) ≡ none
  Ends sock port (suc k) s =
      (d : Bytes) × (env.read (call (sock_tcp_read sock) ∷ s.log) ≡ some d)
      × Ends sock port k (chunk env d port (after_read sock s))

  chunk_lem :
      (d : Bytes) (port : ℕ) (s : State)
      → (calls (chunk env d port s).log ≡ calls s.log) × SameFlags s (chunk env d port s)
  unfolding chunk
  chunk_lem d port s = ground arith

  replicate-cons :
      (k : ℕ) (c : Call) (l : List Call) → replicate k c ++ c ∷ l ≡ c ∷ replicate k c ++ l
  replicate-cons zero c l = refl
  replicate-cons (suc k) c l = ap (◌∷◌ c) (replicate-cons k c l)

  abbrev Reads : Sock → ℕ → State → State → Type 0
  Reads sock k s t = (calls t.log ≡ replicate k (sock_tcp_read sock) ++ calls s.log) × SameFlags s t

  Reads-next :
      (sock : Sock) (k : ℕ) (s next t : State)
      → (calls next.log ≡ sock_tcp_read sock ∷ calls s.log) × SameFlags s next
      → Reads sock (suc k) next t
      → Reads sock (suc (suc k)) s t
  Reads-next sock k s next t c h = (
    h.0
        ∙ ap (λ l. replicate (suc k) (sock_tcp_read sock) ++ l) c.0
        ∙ replicate-cons (suc k) (sock_tcp_read sock) (calls s.log),
    (h.1.0 ∙ c.1.0, h.1.1 ∙ c.1.1),
  )

  read_loop_lem :
      (fuel k : ℕ) (sock : Sock) (port : ℕ) (s : State)
      → k < fuel
      → Ends sock port k s
      → Returns (λ _ t. Reads sock (suc k) s t) (read_loop env fuel sock port s)
  unfolding read_loop
  read_loop_lem zero k sock port s lt e = absurd (omega arith)
  read_loop_lem (suc fuel) zero sock port s lt e = rw (e, Returns) (refl, (refl, refl))
  read_loop_lem (suc fuel) (suc k) sock port s lt (d, e, more) =
      rw (e, Returns)
        (let next = chunk env d port (after_read sock s) in
          let c = chunk_lem d port (after_read sock s) in
          Returns-map (λ _ t. Reads sock (suc k) next t) (λ _ t. Reads sock (suc (suc k)) s t)
            (read_loop env fuel sock port next) (λ _ t h. Reads-next sock k s next t c h)
            (read_loop_lem fuel k sock port next (omega arith) more))

  abbrev pub port_of : Option (Bytes × ℕ) → ℕ
  port_of none = env.old_port
  port_of (some (text, port)) = port

  abbrev pub named : Option (Bytes × ℕ) → State → State
  named none s = s
  named (some (text, port)) s = record s { addr_str = text }

  named_lem :
      (fmt : Option (Bytes × ℕ)) (s : State)
      → (calls (named fmt s).log ≡ calls s.log) × SameFlags s (named fmt s)
  named_lem none s = (refl, (refl, refl))
  named_lem (some (text, port)) s = (refl, (refl, refl))

  format_to_lem :
      (fmt : Option (Bytes × ℕ)) (s : State) → format_to env fmt s ≡ some (port_of fmt, named fmt s)
  unfolding format_to
  format_to_lem none s = refl
  format_to_lem (some (text, port)) s = refl

  abbrev pub reading : Bool → ℕ → Sock → List Call
  reading false k sock = []
  reading true k sock = replicate (suc k) (sock_tcp_read sock)

  abbrev pub closing : Bool → Sock → List Call
  closing false sock = []
  closing true sock = sock_tcp_disconnect sock ∷ []

  reading_lem :
      (fuel k : ℕ) (sock : Sock) (port : ℕ) (on : Bool) (s : State)
      → k < fuel
      → Ends sock port k s
      → Returns
          (λ _ t. (calls t.log ≡ reading on k sock ++ calls s.log) × SameFlags s t)
          ((if on then read_loop env fuel sock port else pure tt) s)
  reading_lem fuel k sock port true s lt e = read_loop_lem fuel k sock port s lt e
  reading_lem fuel k sock port false s lt e = (refl, (refl, refl))

  finish_lem :
      (sock : Sock) (port : ℕ) (on : Bool) (s : State)
      → Returns
          (λ _ t. (calls t.log ≡ closing on sock ++ calls s.log) × SameFlags s t)
          (finish env sock port on s)
  unfolding finish
  finish_lem sock port true s = (refl, (refl, refl))
  finish_lem sock port false s = (refl, (refl, refl))

  -- What the handler of a connection must have done.
  abbrev pub Answers : Sock → AsyncFlags → ℕ → State → State → Type 0
  Answers sock flags k s t =
      (calls t.log ≡ closing flags.conn_fin sock ++ (reading flags.msg_recv k sock ++ calls s.log))
      × SameFlags s t

  serve_lem :
      (fuel k : ℕ) (sock : Sock) (flags : AsyncFlags) (client : Endpoint) (s : State)
      → k < fuel
      → Ends sock (port_of (env.ep_fmt client)) k (named (env.ep_fmt client) s)
      → Returns (λ _ t. Answers sock flags k s t) (serve env fuel sock flags (some client) s)
  unfolding serve
  serve_lem fuel k sock flags client s lt e =
      let port = port_of (env.ep_fmt client) in
      let s' = named (env.ep_fmt client) s in
      let n = named_lem (env.ep_fmt client) s in
      rw (format_to_lem (env.ep_fmt client) s, Returns)
        (Returns-then (if flags.msg_recv then read_loop env fuel sock port else pure tt)
          (λ _ t. (calls t.log ≡ reading flags.msg_recv k sock ++ calls s'.log) × SameFlags s' t)
          (λ _ t. Answers sock flags k s t) (finish env sock port flags.conn_fin) s'
          (reading_lem fuel k sock port flags.msg_recv s' lt e)
          (λ _ t h.
            Returns-map
              (λ _ u. (calls u.log ≡ closing flags.conn_fin sock ++ calls t.log) × SameFlags t u)
              (λ _ u. Answers sock flags k s u) (finish env sock port flags.conn_fin t)
              (λ _ u q. (
                q.0
                    ∙ ap (λ l. closing flags.conn_fin sock ++ l)
                        (h.0 ∙ ap (λ l. reading flags.msg_recv k sock ++ l) n.0),
                (q.1.0 ∙ h.1.0 ∙ n.1.0, q.1.1 ∙ h.1.1 ∙ n.1.1),
              ))
              (finish_lem sock port flags.conn_fin t)))

  -- An event of a connection whose peer is known, where `k` reads succeed and the next one does
  -- not: with fuel for more than `k` rounds the handler returns, has read `k + 1` times if there
  -- was a message, then disconnected if the peer closed the connection, and has changed no flag.
  pub tcp_recv_lem :
      (fuel k : ℕ) (sock : Sock) (flags : AsyncFlags) (client : Endpoint) (s : State)
      → env.remote sock s.log ≡ some client
      → k < fuel
      → Ends sock (port_of (env.ep_fmt client)) k (named (env.ep_fmt client) s)
      → Returns (λ _ t. Answers sock flags k s t) (tcp_recv env fuel sock flags (codes "test") s)
  unfolding tcp_recv str_eq
  tcp_recv_lem fuel k sock flags client s known lt e =
      rw known (serve_lem fuel k sock flags client s lt e)

  -- What an event of the queue must have done, by the answer of `sock_tcp_accept`.
  abbrev pub Accepts : Option ℕ → State → State → Type 0
  Accepts none s t = (calls t.log ≡ sock_tcp_accept ∷ calls s.log) × SameFlags s t
  Accepts (some i) s t =
      (calls t.log ≡ sock_tcp_event_init (queued i) ∷ sock_tcp_accept ∷ calls s.log) × SameFlags s t

  abbrev pub Queues : Bool → State → State → Type 0
  Queues false s t = t ≡ s
  Queues true s t = Accepts (env.accept (call sock_tcp_accept ∷ s.log)) s t

  accepted_lem :
      (res : Option ℕ) (s : State)
      → Returns
          (λ _ t. Accepts res s t)
          (accepted env res (record s { log = call sock_tcp_accept ∷ s.log }))
  unfolding accepted
  accepted_lem none s = (refl, (refl, refl))
  accepted_lem (some i) s =
      let l = call (sock_tcp_event_init (queued i)) ∷ call sock_tcp_accept ∷ s.log in
      let fmt = env.ep_fmt (remote_or_old env (env.remote (queued i) l)) in
      let n = named_lem fmt (record s { log = l }) in
      rw (format_to_lem fmt (record s { log = l }), Returns) (n.0, n.1)

  -- An event of the queue: a connection is accepted if there is one, and its events are served
  -- exactly if it was accepted.
  pub tcp_accept_lem :
      (flags : AsyncFlags) (s : State)
      → Returns (λ _ t. Queues flags.conn_recv s t) (tcp_accept env flags (codes "test") s)
  unfolding tcp_accept accept_one str_eq
  tcp_accept_lem flags s = elim (Bool-cases flags.conn_recv) [
    | inl on ↦ rw on (accepted_lem (env.accept (call sock_tcp_accept ∷ s.log)) s)
    | inr off ↦ rw off refl
  ]

  abbrev pub server_addr : Bytes → Endpoint
  server_addr args = record (env.sock_ip_ep_any) { port = u16 (atoi args) }

  -- What the thread must have done, by whether `sock_tcp_listen` failed.
  abbrev pub Listens : Bool → Bytes → State → State → Type 0
  Listens true args s t =
      (calls t.log ≡ sock_tcp_listen (server_addr args) ∷ calls s.log) × SameFlags s t
  Listens false args s t =
      (calls t.log ≡ sock_tcp_queue_event_init ∷ sock_tcp_listen (server_addr args) ∷ calls s.log)
      × (t.server_running ≡ true)
      × (t.client_running ≡ s.client_running)

  -- The server is marked as running, and the events of its queue are served, exactly if its port
  -- could be opened.
  pub tcp_server_thread_lem :
      (args : Bytes) (s : State)
      → Returns
          (λ _ t.
            Listens
              (is_neg (env.listen (call (sock_tcp_listen (server_addr args)) ∷ s.log)))
              args
              s
              t)
          (server_thread env args s)
  unfolding server_thread
  tcp_server_thread_lem args s =
      elim (Bool-cases (is_neg (env.listen (call (sock_tcp_listen (server_addr args)) ∷ s.log)))) [
        | inl e ↦ rw e (refl, (refl, refl))
        | inr e ↦ rw e (refl, refl, refl)
      ]
