-- ===== src/Sockets/Start.antt =====
-- examples/native-sockets/main/udp.c: what `udp_start_server` does.
use studio.Base.{
  ℕ, true, ◌∷◌, if◌then◌else◌, ℤ, pos, negsuc, is_neg, is_nonpos, Bytes, pure, Returns, ◌>>◌, calls,
  ◌≡◌, refl, inl, inr, call, puts, Log, Bool-cases,
}
use studio.Sockets.{Call, thread_create, Env, State, say, set_socket, udp_start_server}
use studio.Sockets.Scope.{SameVars}

module _ (env : Env) where
  -- What `server start` must have done, by the descriptor of the server.
  abbrev pub StartsOn : ℤ → Bytes → State → ℕ → State → Type 0
  StartsOn (pos fd) port s r t = (r ≡ 1) × (calls t.log ≡ calls s.log) × SameVars s t
  StartsOn (negsuc e) port s r t =
      (r ≡ (if is_nonpos (env.thread (call (thread_create port) ∷ s.log)) then 1 else 0))
      × (calls t.log ≡ thread_create port ∷ calls s.log)
      × (is_neg t.server_socket ≡ true)
      × (t.server_buffer ≡ s.server_buffer)

  create_lem :
      (pid : ℤ) (s : State)
      → is_neg s.server_socket ≡ true
      → Returns
          (λ (r : ℕ) (t : State).
            (r ≡ (if is_nonpos pid then 1 else 0))
            × (calls t.log ≡ calls s.log)
            × (is_neg t.server_socket ≡ true)
            × (t.server_buffer ≡ s.server_buffer))
          ((if is_nonpos pid
              then (do set_socket (negsuc 0); say (puts "error initializing thread"); pure 1)
              else pure 0)
            s)
  create_lem pid s e = elim (Bool-cases (is_nonpos pid)) [
    | inl f ↦ rw f (refl, refl, refl, refl)
    | inr f ↦ rw f (refl, refl, e, refl)
  ]

  pub start_lem :
      (fd : ℤ) (buffer port : Bytes) (l : Log Call)
      → let s : State = record { server_socket = fd; server_buffer = buffer; log = l } in
        Returns (StartsOn fd port s) (udp_start_server env port s)
  unfolding udp_start_server
  start_lem (pos fd) buffer port l = (refl, refl, (refl, refl))
  start_lem (negsuc e) buffer port l =
      create_lem (env.thread (call (thread_create port) ∷ l))
        (record {
          server_socket = negsuc e;
          server_buffer = buffer;
          log = call (thread_create port) ∷ l;
        })
        refl
