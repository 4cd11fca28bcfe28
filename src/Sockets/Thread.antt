-- ===== src/Sockets/Thread.antt =====
-- examples/native-sockets/main/udp.c: the server's thread up to its loop.
use studio.Base.{
  ℕ, Bool, true, false, [], ◌∷◌, ◌==◌, if◌then◌else◌, ℤ, pos, negsuc, is_neg, u16, Bytes, not, pure,
  Returns, Returns-map, calls, ◌≡◌, refl, arith, call, puts, printf, num, Log, ◌>>◌,
}
use studio.Libc.{atoi}
use studio.Sockets.{
  SockaddrIn6, any_addr, Call, msg_init_queue, socket, bind, Env, State, say, set_socket,
  bind_server, server_thread, udp_start_server,
}
use studio.Sockets.Start.{StartsOn, start_lem}

module _ (env : Env) where
  abbrev pub server_addr : ℕ → SockaddrIn6
  server_addr port = record {
    sin6_addr = any_addr;
    sin6_port = env.htons port;
    sin6_scope_id = env.old_scope;
  }

  -- What the thread must have done before its loop, by whether the port is 0, the descriptor that
  -- `socket` returned, and whether `bind` fails; the result is whether the loop is entered.
  abbrev pub Binds : Bool → ℤ → Bool → ℕ → State → Bool → State → Type 0
  Binds true fd failed port s r t =
      (r ≡ false)
      × (calls t.log ≡ socket ∷ msg_init_queue ∷ calls s.log)
      × (t.server_socket ≡ fd)
      × (t.server_buffer ≡ s.server_buffer)
  Binds false (negsuc e) failed port s r t =
      (r ≡ false)
      × (calls t.log ≡ socket ∷ msg_init_queue ∷ calls s.log)
      × (t.server_socket ≡ pos 0)
      × (t.server_buffer ≡ s.server_buffer)
  Binds false (pos fd) failed port s r t =
      (r ≡ not failed)
      × (calls t.log ≡ bind (pos fd) (server_addr port) ∷ socket ∷ msg_init_queue ∷ calls s.log)
      × (t.server_socket ≡ (if failed then negsuc 0 else pos fd))
      × (t.server_buffer ≡ s.server_buffer)

  abbrev pub opened_log : State → Log Call
  opened_log s = call socket ∷ call msg_init_queue ∷ s.log

  abbrev pub bind_fails : ℕ → State → ℤ → Bool
  bind_fails port s fd = is_neg (env.bound (call (bind fd (server_addr port)) ∷ opened_log s))

  abbrev opened : ℤ → State → State
  opened fd s = record s { server_socket = fd; log = opened_log s }

  bound_lem :
      (failed : Bool) (fd port : ℕ) (s : State)
      → Returns (Binds false (pos fd) failed port s) (
          (if failed
              then (do set_socket (negsuc 0); say (puts "error binding socket"); pure false)
              else do
                say (printf "Success: started UDP server on port %u\n" (num port ∷ []))
                pure true)
            (record s {
              server_socket = pos fd;
              log = call (bind (pos fd) (server_addr port)) ∷ opened_log s;
            }))
  bound_lem true fd port s = (refl, refl, refl, refl)
  bound_lem false fd port s = (refl, refl, refl, refl)

  bind_server_lem :
      (fd port : ℕ) (s : State)
      → Returns
          (Binds false (pos fd) (bind_fails port s (pos fd)) port s)
          (bind_server env (pos fd) port (opened (pos fd) s))
  unfolding bind_server
  bind_server_lem fd port s = bound_lem (bind_fails port s (pos fd)) fd port s

  choose_lem :
      (zero_port : Bool) (fd : ℤ) (port : ℕ) (s : State)
      → Returns (Binds zero_port fd (bind_fails port s fd) port s) (
          (if zero_port
              then (do say (puts "Error: invalid port specified"); pure false)
              else if is_neg fd
              then (do say (puts "error initializing socket"); set_socket (pos 0); pure false)
              else bind_server env fd port)
            (opened fd s))
  choose_lem true fd port s = (refl, refl, refl, refl)
  choose_lem false (negsuc e) port s = (refl, refl, refl, refl)
  choose_lem false (pos fd) port s = bind_server_lem fd port s

  -- The thread makes a socket, and binds it to the port that the text names unless that port is 0
  -- or there is no socket. It enters its loop exactly if `bind` succeeds. The server's descriptor is
  -- then the socket; it is -1 after a failed `bind`, 0 after a failed `socket`, and what `socket`
  -- returned for port 0.
  pub sockets_server_thread_lem :
      (args : Bytes) (s : State)
      → Returns
          (Binds
            (u16 (atoi args) == 0)
            (env.new_fd (opened_log s))
            (bind_fails (u16 (atoi args)) s (env.new_fd (opened_log s)))
            (u16 (atoi args))
            s)
          (server_thread env args s)
  unfolding server_thread
  sockets_server_thread_lem args s =
      choose_lem (u16 (atoi args) == 0) (env.new_fd (opened_log s)) (u16 (atoi args)) s

  -- `server start` is refused: status 1, and no call.
  abbrev pub Refuses : State → Type 0
  Refuses t =
      (port : Bytes)
      → Returns (λ r u. (r ≡ 1) × (calls u.log ≡ calls t.log)) (udp_start_server env port t)

  refuses_lem : (fd : ℕ) (t : State) → t.server_socket ≡ pos fd → Refuses t
  refuses_lem fd t e port =
      Returns-map (StartsOn env t.server_socket port t)
        (λ r u. (r ≡ 1) × (calls u.log ≡ calls t.log)) (udp_start_server env port t)
        (λ r u h. let g = rw e at h in (g.0, g.1))
        (start_lem env t.server_socket t.server_buffer port t.log)

  Binds-blocks :
      (zero_port : Bool) (fd : ℤ) (failed : Bool) (port : ℕ) (s : State) (r : Bool) (t : State)
      → is_neg fd ≡ not zero_port
      → Binds zero_port fd failed port s r t
      → (r ≡ false) × Refuses t
  Binds-blocks true (pos fd) failed port s r t e h = (h.0, refuses_lem fd t h.2)
  Binds-blocks true (negsuc k) failed port s r t e h = absurd (ground arith)
  Binds-blocks false (negsuc k) failed port s r t e h = (h.0, refuses_lem 0 t h.2)
  Binds-blocks false (pos fd) failed port s r t e h = absurd (ground arith)

  pub server_thread_blocks :
      (args : Bytes) (s : State)
      → is_neg (env.new_fd (opened_log s)) ≡ not (u16 (atoi args) == 0)
      → Returns (λ r t. (r ≡ false) × Refuses t) (server_thread env args s)
  server_thread_blocks args s e =
      Returns-map
        (Binds (u16 (atoi args) == 0) (env.new_fd (opened_log s))
          (bind_fails (u16 (atoi args)) s (env.new_fd (opened_log s))) (u16 (atoi args)) s)
        (λ r t. (r ≡ false) × Refuses t) (server_thread env args s)
        (λ r t h. Binds-blocks _ _ _ _ s r t e h) (sockets_server_thread_lem args s)
