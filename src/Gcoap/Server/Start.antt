-- ===== src/Gcoap/Server/Start.antt =====
-- server.c: the branches of `server_init`.
use studio.Base.{
  ℕ, Bool, true, false, List, [], ◌∷◌, if◌then◌else◌, is_neg, ℤ, pos, negsuc, not, ◌==◌, pure, Returns, Returns-map, ◌>>◌,
  calls, ◌≡◌, refl, ap, inl, inr, arith, call, puts, modify, Bool-cases,
}
use std.Path.{subst}
use studio.Gcoap.{
  Call, credman_add, add_credential, register_listener, obs_send, req_send, async_next,
  async_complete, Env, State, say,
}
use studio.Gcoap.Server.{same_int, start_listening, refused, use_credential, with_dtls, server_init}

-- The listener has been registered.
abbrev pub registered : List Call → Bool
registered [] = false
registered (register_listener ∷ l) = true
registered (credman_add ∷ l) = registered l
registered (add_credential ∷ l) = registered l
registered (obs_send _ _ ∷ l) = registered l
registered (req_send _ _ _ ∷ l) = registered l
registered (async_next _ _ _ _ _ ∷ l) = registered l
registered (async_complete _ ∷ l) = registered l

-- What the client keeps stays as it was.
abbrev pub SameClient : State → State → Type 0
SameClient s t =
    (t.req_count ≡ s.req_count)
    × (t.proxied ≡ s.proxied)
    × (t.proxy_remote ≡ s.proxy_remote)
    × (t.proxy_uri ≡ s.proxy_uri)
    × (t.last_req_path ≡ s.last_req_path)

-- A status says that the credential is refused: it is negative, and not the one for a credential that
-- the system has already.
abbrev pub rejects : ℤ → ℤ → Bool
rejects (pos n) exist = false
rejects (negsuc n) (pos m) = true
rejects (negsuc n) (negsuc m) = not (n == m)

module _ (env : Env) where
  refused-rejects : (res : ℤ) → refused env res ≡ rejects res env.credman_exist
  unfolding refused
  refused-rejects res = go res env.credman_exist
    where
      go : (res exist : ℤ) → (if is_neg res then (if same_int res exist then false else true) else false) ≡ rejects res exist
      go (pos n) exist = refl
      go (negsuc n) (pos m) = refl
      go (negsuc n) (negsuc m) = elim (Bool-cases (n == m)) [ inl e ↦ rw e refl | inr e ↦ rw e refl ]

  -- The credential of the first initialisation is refused.
  abbrev pub is_bad : State → Bool
  is_bad s = rejects (env.credential (call credman_add ∷ s.log)) env.credman_exist

  -- What the first initialisation must have done, by whether DTLS is built in and whether the
  -- credential is refused.
  abbrev pub Starts : Bool → Bool → State → ℕ → State → Type 0
  Starts false bad s r t = (r ≡ 0) × (calls t.log ≡ register_listener ∷ calls s.log)
  Starts true true s r t = (r ≡ 2) × (calls t.log ≡ credman_add ∷ calls s.log)
  Starts true false s r t =
      (r ≡ 0) × (calls t.log ≡ register_listener ∷ add_credential ∷ credman_add ∷ calls s.log)

  -- What an initialisation must have done, by whether one was made before.
  abbrev pub Inits : Bool → State → ℕ → State → Type 0
  Inits true s r t = (r ≡ 1) × (calls t.log ≡ calls s.log) × SameClient s t
  Inits false s r t =
      Starts env.module_gcoap_dtls (is_bad s) s r t
      × SameClient s t

  use_credential_lem :
      (s : State)
      → Returns
          (λ r t.
            (r ≡ 0)
            × (calls t.log ≡ register_listener ∷ add_credential ∷ calls s.log)
            × (t.server_init_done ≡ s.server_init_done)
            × SameClient s t)
          (use_credential env s)
  unfolding use_credential start_listening
  use_credential_lem s =
      elim (Bool-cases (is_neg (env.dtls_credential (call add_credential ∷ s.log)))) [
        | inl e ↦ rw e (refl, refl, refl, (refl, refl, refl, refl, refl))
        | inr e ↦ rw e (refl, refl, refl, (refl, refl, refl, refl, refl))
      ]

  with_dtls_lem :
      (s : State)
      → Returns
          (λ r t.
            Starts true (refused env (env.credential (call credman_add ∷ s.log))) s r t
            × (t.server_init_done ≡ s.server_init_done)
            × SameClient s t)
          (with_dtls env s)
  unfolding with_dtls
  with_dtls_lem s = elim (Bool-cases (refused env (env.credential (call credman_add ∷ s.log)))) [
    | inl e ↦ rw e ((refl, refl), refl, (refl, refl, refl, refl, refl))
    | inr e ↦ rw e (
        let s' = record s { log = call credman_add ∷ s.log } in
        Returns-map
          (λ r t.
            (r ≡ 0)
            × (calls t.log ≡ register_listener ∷ add_credential ∷ calls s'.log)
            × (t.server_init_done ≡ s'.server_init_done)
            × SameClient s' t)
          (λ r t.
            Starts true false s r t × (t.server_init_done ≡ s.server_init_done) × SameClient s t)
          (use_credential env s') (λ r t h. ((h.0, h.1), h.2, h.3)) (use_credential_lem s'))
  ]

  abbrev marked : State → State
  marked s = record s { server_init_done = true }

  Starts-marked :
      (bad : Bool) (s : State) (r : ℕ) (t : State)
      → Starts true bad (marked s) r t
      → Starts true bad s r t
  Starts-marked true s r t h = h
  Starts-marked false s r t h = h

  first_lem :
      (dtls : Bool) (s : State)
      → Returns
          (λ r t.
            (t.server_init_done ≡ true)
            × (Starts dtls (is_bad s) s r t
                × SameClient s t))
          ((if dtls then with_dtls env else start_listening env) (marked s))
  unfolding start_listening
  first_lem false s = (refl, ((refl, refl), (refl, refl, refl, refl, refl)))
  first_lem true s =
      Returns-map
        (λ r t.
          Starts true (refused env (env.credential (call credman_add ∷ s.log))) (marked s) r t
          × (t.server_init_done ≡ true)
          × SameClient (marked s) t)
        (λ r t.
          (t.server_init_done ≡ true)
          × (Starts true (is_bad s) s r t
              × SameClient s t))
        (with_dtls env (marked s))
        (λ r t h. (
          h.1,
          (subst (λ b. Starts true b s r t) (refused-rejects _) (Starts-marked _ s r t h.0), h.2)))
        (with_dtls_lem (marked s))

  choose_lem :
      (done : Bool) (s : State)
      → s.server_init_done ≡ done
      → Returns
          (λ r t. (t.server_init_done ≡ true) × Inits done s r t)
          ((if done
              then (do say (puts "@@ server_init(): already initialized, NOP"); pure 1)
              else do
                modify marked
                if env.module_gcoap_dtls then with_dtls env else start_listening env)
            s)
  choose_lem true s e = (e, (refl, refl, (refl, refl, refl, refl, refl)))
  choose_lem false s e = first_lem env.module_gcoap_dtls s

  -- `server_init` returns, and the server counts as initialised afterwards. If it did before, the
  -- status is 1 and no call is made. Else the listener is registered, with status 0, unless DTLS is
  -- built in and its credential is refused: then the status is 2 and nothing is registered. What
  -- the client keeps does not change.
  pub server_init_lem :
      (s : State)
      → Returns
          (λ r t. (t.server_init_done ≡ true) × Inits s.server_init_done s r t)
          (server_init env s)
  unfolding server_init
  server_init_lem s = choose_lem s.server_init_done s refl

  again_lem :
      (t : State)
      → t.server_init_done ≡ true
      → Returns (λ r u. (r ≡ 1) × (calls u.log ≡ calls t.log)) (server_init env t)
  again_lem t e =
      Returns-map (λ r u. (u.server_init_done ≡ true) × Inits t.server_init_done t r u)
        (λ r u. (r ≡ 1) × (calls u.log ≡ calls t.log)) (server_init env t)
        (λ r u h. let g = subst (λ b. Inits b t r u) e h.1 in (g.0, g.1)) (server_init_lem t)

  -- Whatever the first initialisation did, a second one fails with status 1 and makes no call.
  pub server_init_once :
      (s : State)
      → Returns
          (λ _ t. Returns (λ r u. (r ≡ 1) × (calls u.log ≡ calls t.log)) (server_init env t))
          (server_init env s)
  server_init_once s =
      Returns-map (λ r t. (t.server_init_done ≡ true) × Inits s.server_init_done s r t)
        (λ _ t. Returns (λ r u. (r ≡ 1) × (calls u.log ≡ calls t.log)) (server_init env t))
        (server_init env s) (λ r t h. again_lem t h.0) (server_init_lem s)

  Starts-refused :
      (dtls bad : Bool) (s : State) (r : ℕ) (t : State)
      → dtls ≡ true
      → bad ≡ true
      → Starts dtls bad s r t
      → (r ≡ 2) × (calls t.log ≡ credman_add ∷ calls s.log)
  Starts-refused true true s r t e f h = h
  Starts-refused true false s r t e f h = absurd (ground arith)
  Starts-refused false bad s r t e f h = absurd (ground arith)

  -- Where DTLS is built in, a refused credential leaves a server that counts as initialised but has
  -- no listener, and every later initialisation makes no call and fails with status 1.
  pub server_init_stuck :
      (s : State)
      → s.server_init_done ≡ false
      → env.module_gcoap_dtls ≡ true
      → is_bad s ≡ true
      → Returns
          (λ r t.
            (r ≡ 2)
            × (t.server_init_done ≡ true)
            × (registered (calls t.log) ≡ registered (calls s.log))
            × Returns (λ r' u. (r' ≡ 1) × (calls u.log ≡ calls t.log)) (server_init env t))
          (server_init env s)
  server_init_stuck s new dtls bad =
      Returns-map (λ r t. (t.server_init_done ≡ true) × Inits s.server_init_done s r t)
        (λ r t.
          (r ≡ 2)
          × (t.server_init_done ≡ true)
          × (registered (calls t.log) ≡ registered (calls s.log))
          × Returns (λ r' u. (r' ≡ 1) × (calls u.log ≡ calls t.log)) (server_init env t))
        (server_init env s)
        (λ r t h.
          let g = Starts-refused _ _ s r t dtls bad (subst (λ b. Inits b s r t) new h.1).0 in
          (g.0, h.0, ap registered g.1, again_lem t h.0))
        (server_init_lem s)
