-- ===== src/Lwip/Udp/Server.antt =====
-- udp.c: the server thread and the handler of its events.
use studio.Base.{
  ℕ, suc, ◌≤◌, Bool, true, false, Option, none, some, List, [], ◌∷◌, length, drop, ◌==◌, is_neg,
  u16, Bytes, codes, str_eq, Returns, Returns-map, calls, ◌≡◌, refl, ◌∙◌, ap, inl, inr, arith, Log,
  call, puts, printf, od_hex_dump, Bool-cases, take-append, length-append, length-drop,
}
use studio.Libc.{atoi}
use studio.Lwip.Sock.{Endpoint, AsyncFlags}
use studio.Lwip.Udp.{
  Call, thread_create, sock_udp_create, sock_udp_event_init, sock_udp_recv, sock_udp_send, usleep,
  Env, State, report, show, received, handle, udp_recv, server_thread,
}
use studio.Lwip.Udp.Laws.{SameVars}

-- SOCK_INBUF_SIZE
abbrev pub sock_inbuf_size : ℕ
sock_inbuf_size = 256

-- The dumps that were made, newest first.
abbrev pub dumps : Log Call → List Bytes
dumps [] = []
dumps (od_hex_dump d ∷ l) = d ∷ dumps l
dumps (puts _ ∷ l) = dumps l
dumps (printf _ _ ∷ l) = dumps l
dumps (call _ ∷ l) = dumps l

-- The server's socket serves events.
abbrev pub opened : List Call → Bool
opened [] = false
opened (sock_udp_event_init ∷ l) = true
opened (thread_create _ ∷ l) = opened l
opened (sock_udp_create _ ∷ l) = opened l
opened (sock_udp_recv ∷ l) = opened l
opened (sock_udp_send _ _ _ ∷ l) = opened l
opened (usleep _ ∷ l) = opened l

abbrev pub received_data : Option (Bytes × Endpoint) → Bytes
received_data none = []
received_data (some (d, src)) = d

-- `sock_udp_recv` writes as many bytes as it is allowed at most.
abbrev pub RecvFits : Env → Type 0
RecvFits env = (l : Log Call) → length (received_data (env.recv l)) ≤ sock_inbuf_size

suc==zero : (n : ℕ) → (suc n == 0) ≡ false
suc==zero n = ground arith

module _ (env : Env) where
  -- What a reception must have done.
  abbrev pub Receives : Option (Bytes × Endpoint) → State → State → Type 0
  Receives none s t = (dumps t.log ≡ dumps s.log) × (t.sock_inbuf ≡ s.sock_inbuf)
  Receives (some ([], src)) s t = (dumps t.log ≡ dumps s.log) × (t.sock_inbuf ≡ s.sock_inbuf)
  Receives (some (d ∷ ds, src)) s t =
      (dumps t.log ≡ (d ∷ ds) ∷ dumps s.log) × (length t.sock_inbuf ≡ length s.sock_inbuf)

  show_lem :
      (data_in : Bytes) (src : Endpoint) (s : State)
      → length data_in ≤ length s.sock_inbuf
      → Returns
          (λ _ t.
            ((dumps t.log ≡ data_in ∷ dumps s.log) × (length t.sock_inbuf ≡ length s.sock_inbuf))
            × (t.server_running ≡ s.server_running)
            × (calls t.log ≡ calls s.log))
          (show env data_in src s)
  unfolding show report
  show_lem data_in src s h = ground (
    arith,
    take-append data_in (drop (length data_in) s.sock_inbuf),
    length-append data_in (drop (length data_in) s.sock_inbuf),
    length-drop (length data_in) s.sock_inbuf,
  )

  received_lem :
      (res : Option (Bytes × Endpoint)) (s : State)
      → length (received_data res) ≤ length s.sock_inbuf
      → Returns
          (λ _ t.
            Receives res s t × (t.server_running ≡ s.server_running) × (calls t.log ≡ calls s.log))
          (received env res s)
  unfolding received
  received_lem none s h = ((refl, refl), refl, refl)
  received_lem (some ([], src)) s h = ((refl, refl), refl, refl)
  received_lem (some (d ∷ ds, src)) s h = rw (suc==zero (length ds)) (show_lem (d ∷ ds) src s h)

  -- What an event must have done, by its flag for a message.
  abbrev pub Handles : Bool → State → State → Type 0
  Handles true s t = Receives (env.recv (call sock_udp_recv ∷ s.log)) s t
  Handles false s t = t ≡ s

  -- The rest of what is known of the state after an event.
  abbrev pub Undisturbed : State → State → Type 0
  Undisturbed s t =
      (t.server_running ≡ s.server_running)
      × (length t.sock_inbuf ≡ length s.sock_inbuf)
      × (opened (calls t.log) ≡ opened (calls s.log))

  Receives-length :
      (res : Option (Bytes × Endpoint)) (s t : State)
      → Receives res s t
      → length t.sock_inbuf ≡ length s.sock_inbuf
  Receives-length none s t h = ap length h.1
  Receives-length (some ([], src)) s t h = ap length h.1
  Receives-length (some (d ∷ ds, src)) s t h = h.1

  -- Only the dumps and the buffer of the state before count.
  Receives-same :
      (res : Option (Bytes × Endpoint)) (s s' t : State)
      → dumps s'.log ≡ dumps s.log
      → s'.sock_inbuf ≡ s.sock_inbuf
      → Receives res s' t
      → Receives res s t
  Receives-same none s s' t d b h = (h.0 ∙ d, h.1 ∙ b)
  Receives-same (some ([], src)) s s' t d b h = (h.0 ∙ d, h.1 ∙ b)
  Receives-same (some (x ∷ xs, src)) s s' t d b h = (h.0 ∙ ap (◌∷◌ (x ∷ xs)) d, h.1 ∙ ap length b)

  handle_lem :
      (s : State)
      → RecvFits env
      → length s.sock_inbuf ≡ sock_inbuf_size
      → Returns (λ _ t. Handles true s t × Undisturbed s t) (handle env s)
  unfolding handle
  handle_lem s fits e =
      let res = env.recv (call sock_udp_recv ∷ s.log) in
      let s' = record s { log = call sock_udp_recv ∷ s.log } in
      Returns-map
        (λ _ t.
          Receives res s' t × (t.server_running ≡ s.server_running) × (calls t.log ≡ calls s'.log))
        (λ _ t. Handles true s t × Undisturbed s t) (received env res s')
        (λ _ t h. (
          Receives-same res s s' t refl refl h.0,
          (h.1, Receives-length res s' t h.0, ap opened h.2),
        ))
        (received_lem res s' (omega (arith, fits (call sock_udp_recv ∷ s.log))))

  -- An event of the server: without a message nothing is done. Else one datagram is read, and
  -- exactly its bytes are dumped, if there was no error and it has any; the server's state stays
  -- as it was, and the buffer keeps its size.
  pub udp_recv_lem :
      (flags : AsyncFlags) (s : State)
      → RecvFits env
      → length s.sock_inbuf ≡ sock_inbuf_size
      → Returns
          (λ _ t. Handles flags.msg_recv s t × Undisturbed s t)
          (udp_recv env flags (codes "test") s)
  unfolding udp_recv str_eq
  udp_recv_lem flags s fits e = elim (Bool-cases flags.msg_recv) [
    | inl on ↦ rw on (handle_lem s fits e)
    | inr off ↦ rw off (refl, (refl, refl, refl))
  ]

  abbrev pub server_addr : Bytes → Endpoint
  server_addr args = record (env.sock_ip_ep_any) { port = u16 (atoi args) }

  -- What the thread must have done, by whether its socket could not be created.
  abbrev pub Starts : Bool → Bytes → State → State → Type 0
  Starts true args s t =
      (calls t.log ≡ sock_udp_create (server_addr args) ∷ calls s.log) × SameVars s t
  Starts false args s t =
      (calls t.log ≡ sock_udp_event_init ∷ sock_udp_create (server_addr args) ∷ calls s.log)
      × (t.server_running ≡ true)
      × (t.sock_inbuf ≡ s.sock_inbuf)

  -- The server runs after a successful creation of its socket, on the port that the text gives,
  -- and only then its events are served.
  pub server_thread_lem :
      (args : Bytes) (s : State)
      → Returns
          (λ _ t.
            Starts
              (is_neg (env.create (call (sock_udp_create (server_addr args)) ∷ s.log)))
              args
              s
              t)
          (server_thread env args s)
  unfolding server_thread
  server_thread_lem args s =
      elim (Bool-cases (is_neg (env.create (call (sock_udp_create (server_addr args)) ∷ s.log)))) [
        | inl e ↦ rw e (refl, (refl, refl))
        | inr e ↦ rw e (refl, refl, refl)
      ]
