-- ===== src/Libcoap/Client/Outcome.antt =====
-- examples/xbd-net/modules/minerva_libcoap: how far a run of the client comes, and what it then leaves.
use studio.Base.{
  Made, ℕ, ◌^◌, ◌<◌, false, Option, none, some, List, [], ◌∷◌, take, if◌then◌else◌, ◌==◌, Bytes,
  calls, Log, call, printf, str, codes, ◌≡◌, refl, arith,
}
use studio.Libcoap.{
  Uri, udp, tcp, dtls, Psk, Call, startup, set_log_level, resolve_address_info, free_address_info,
  new_context, set_block_mode, new_client_session, delete_optlist, session_release, free_context,
  cleanup, Env, State,
}
use studio.Libcoap.Client.{make_session, finish, dtls_psk}
use studio.Libcoap.Client.Session.{is_work, WaitFits}

-- The variables are as at the start, but for the waiting time, which can still be used.
abbrev pub IsFresh : State → Type 0
IsFresh s = (s.quit ≡ false) × (s.optlist ≡ none) × (s.main_coap_context ≡ none) × WaitFits s

-- The calls from the label `fail` on, which release what was made.
abbrev pub closing : Option ℕ → Option ℕ → Option ℕ → List Call → List Call
closing ses ctx opts cs =
    cleanup ∷ free_context ctx ∷ session_release ses ∷ delete_optlist opts ∷ cs

-- What the key of a DTLS session is for a host: its name, cut to the array, and the constants.
abbrev pub key_for : Bytes → Psk
key_for [] = record {
  client_sni = codes "localhost";
  identity = codes "user_abc";
  key = codes "secretPSK";
}
key_for (c ∷ cs) = record {
  client_sni = take 255 (c ∷ cs);
  identity = codes "user_abc";
  key = codes "secretPSK";
}

dtls_psk-key_for : (host : Bytes) → dtls_psk host ≡ key_for host
unfolding dtls_psk
dtls_psk-key_for [] = refl
dtls_psk-key_for (c ∷ cs) = refl

-- How far a client comes, and what holds of it there: `K` of its session, its context, and the calls
-- that it made.
abbrev pub Outcome : Type 1
Outcome = Option ℕ → Option ℕ → List Call → Type 0

-- The client is done: all was released, and its variables are fresh.
abbrev pub Closes : State → Outcome
Closes t ses ctx cs = (opts : Option ℕ) × (calls t.log ≡ closing ses ctx opts cs) × IsFresh t

-- The log once libcoap has started.
abbrev pub started : Bytes → State → Log Call
started uri s =
    call set_log_level
    ∷ call startup
    ∷ printf "@@ client_coap_init(): coap_uri: %s\n" (str uri ∷ [])
    ∷ s.log

module _ (env : Env) where
  -- The session that the scheme of a URI asks for. DTLS has a key, and the name of the server, cut
  -- to its array.
  abbrev pub session_call : Uri → Bytes → Call
  session_call uri dst =
      if uri.scheme == env.scheme_coap
      then new_client_session udp dst none
      else if uri.scheme == env.scheme_coap_tcp
      then new_client_session tcp dst none
      else new_client_session dtls dst (some (key_for uri.host))

  pub make_session_lem :
      (uri : Uri) (dst : Bytes) (s : State)
      → make_session env uri dst s
        ≡ some (
          env.session (call (session_call uri dst) ∷ s.log),
          record s { log = call (session_call uri dst) ∷ s.log },
        )
  unfolding make_session
  make_session_lem uri dst s = rw (dtls_psk-key_for uri.host) (ground arith)

  -- The state behind the label `fail`.
  abbrev pub closed : Option ℕ → State → State
  closed ses s = record s {
    quit = false;
    optlist = none;
    main_coap_context = none;
    log =
        call cleanup
        ∷ call (free_context s.main_coap_context)
        ∷ call (session_release ses)
        ∷ call (delete_optlist s.optlist)
        ∷ s.log;
  }

  pub finish_lem : (ses : Option ℕ) (s : State) → finish env ses s ≡ some (tt, closed ses s)
  unfolding finish
  finish_lem ses s = refl

  module _ (K : Outcome) where
    abbrev pub Asked : Option ℕ → ℕ → Log Call → Type 0
    Asked none ctx l = K none (some ctx) (calls l)
    Asked (some ses) ctx l =
        (cs : List Call) × Made is_work (calls l) cs × K (some ses) (some ctx) cs

    abbrev pub Opened : Option ℕ → Uri → Bytes → Log Call → Type 0
    Opened none uri dst l = K none none (calls l)
    Opened (some ctx) uri dst l =
        let l' = call (session_call uri dst) ∷ call set_block_mode ∷ l in
        Asked (env.session l') ctx l'

    abbrev pub Found : Option Bytes → Uri → Log Call → Type 0
    Found none uri l = K none none (calls l)
    Found (some dst) uri l =
        Opened (env.context (call new_context ∷ l)) uri dst (call new_context ∷ l)

    -- A URI that is not understood leads to no more calls. Else its host, of which the buffer holds
    -- 99 bytes, is looked up at its port; then a context and a session are made, and the request
    -- runs on that.
    abbrev pub Runs : Option Uri → Log Call → Type 0
    Runs none l = K none none (calls l)
    Runs (some uri) l =
        let l' = call (resolve_address_info (take 99 uri.host) uri.port (2 ^ uri.scheme)) ∷ l in
        Found (env.resolved l') uri (call free_address_info ∷ l')

  module _ (K K' : Outcome)
      (k : (ses ctx : Option ℕ) (cs : List Call) → K ses ctx cs → K' ses ctx cs) where
    Asked-map : (ses : Option ℕ) (ctx : ℕ) (l : Log Call) → Asked K ses ctx l → Asked K' ses ctx l
    Asked-map none ctx l h = k none (some ctx) (calls l) h
    Asked-map (some ses) ctx l (cs, a, h) = (cs, a, k (some ses) (some ctx) cs h)

    Opened-map :
        (ctx : Option ℕ) (uri : Uri) (dst : Bytes) (l : Log Call)
        → Opened K ctx uri dst l
        → Opened K' ctx uri dst l
    Opened-map none uri dst l h = k none none (calls l) h
    Opened-map (some ctx) uri dst l h = Asked-map (env.session _) ctx _ h

    Found-map :
        (found : Option Bytes) (uri : Uri) (l : Log Call)
        → Found K found uri l
        → Found K' found uri l
    Found-map none uri l h = k none none (calls l) h
    Found-map (some dst) uri l h = Opened-map (env.context _) uri dst _ h

    pub Runs-map : (uri : Option Uri) (l : Log Call) → Runs K uri l → Runs K' uri l
    Runs-map none l h = k none none (calls l) h
    Runs-map (some uri) l h = Found-map (env.resolved _) uri _ h

  -- At the label `fail`.
  abbrev pub Fails : Option ℕ → State → Outcome
  Fails r t ses ctx cs = (r ≡ ses) × (t.main_coap_context ≡ ctx) × (calls t.log ≡ cs) × WaitFits t

  -- libcoap gives ports of 16 bits.
  abbrev pub PortFits : Type 0
  PortFits = (text : Bytes) (uri : Uri) → env.split_uri text ≡ some uri → uri.port < 2 ^ 16

  -- What a command line must have done.
  abbrev pub Serves : List Bytes → State → ℕ → State → Type 0
  Serves [] s r t = (r ≡ 0) × (calls t.log ≡ calls s.log) × IsFresh t
  Serves (uri ∷ args) s r t = (r ≡ 0) × Runs (Closes t) (env.split_uri uri) (started uri s)
