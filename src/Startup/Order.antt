-- ===== src/Startup/Order.antt =====
-- examples/xbd-net/main/main.c: what `main` does, and in which order.
use studio.Base.{
  ℕ, Bool, true, false, Option, none, some, List, ◌∷◌, ℤ, Prog, Returns, Returns-map, Returns-bind,
  ◌>>=◌, ◌>>◌, calls, call, puts, ◌≡◌, refl, sym, ◌∙◌, ap, inl, inr, Bool-cases, codes, pure,
  modify,
}
use std.Path.{subst}
use studio.Gnrc
use studio.Gnrc.{Netif, Found, find_ifces, set_ips}
use studio.Gnrc.Search.{measured, first, is_ethernet, is_other, OnlyReads, find_ifces_lem}
use studio.Gnrc.Setup.{Sets, set_ips_lem}
use studio.Startup.{
  Call, msg_init_queue, esp_eth_init, vfs_mount, gcoap_register_listener, fileserver_set_event_cb,
  rustmod_start, Env, State, in_gnrc, xbd_fns, is_set, say, resources, init_gcoap_fileserver, serve,
  run_net, after_eth, with_eth, main,
}

module _ (env : Env) where
  -- The interface whose MTU passes a test.
  abbrev pub chosen : (ℕ → Bool) → Option Netif
  chosen p = first p (measured env.gnrc env.gnrc.old_mtu env.gnrc.netifs)

  -- The file server, then the Rust side, after the calls `l`.
  abbrev pub served : Bool → List Call → List Call
  served true l =
      rustmod_start xbd_fns
      ∷ fileserver_set_event_cb
      ∷ gcoap_register_listener (resources env)
      ∷ vfs_mount (codes "/const")
      ∷ l
  served false l =
      rustmod_start xbd_fns
      ∷ gcoap_register_listener (resources env)
      ∷ vfs_mount (codes "/const")
      ∷ l

  -- What a start must have done from the search for interfaces on: between the search, which only
  -- reads, and the file server, these interfaces are set up, whether or not that succeeds.
  abbrev pub Runs : List Call → Gnrc.State → ℕ → State → Type 0
  Runs l g r t =
      (r ≡ 0)
      × (t.outer_interface ≡ chosen is_ethernet)
      × (t.inner_interface ≡ chosen is_other)
      × ((h : Gnrc.State) × (status : ℤ) × OnlyReads g h
          × Sets env.gnrc (chosen is_ethernet) (chosen is_other) h status t.gnrc)
      × (calls t.log ≡ served env.module_callback l)

  -- A function of Gnrc that returns.
  lens_lem :
      {A : Type 0} (m : Prog Gnrc.State A) (Q : A → Gnrc.State → Type 0) (s : State)
      → Returns Q (m s.gnrc)
      → Returns
          (λ a t.
            Q a t.gnrc
            × (t.log ≡ s.log)
            × (t.outer_interface ≡ s.outer_interface)
            × (t.inner_interface ≡ s.inner_interface))
          (in_gnrc m s)
  lens_lem {A} m Q s = go (m s.gnrc)
    where
      go :
          (r : Option (A × Gnrc.State))
          → Returns Q r
          → Returns
              (λ a t.
                Q a t.gnrc
                × (t.log ≡ s.log)
                × (t.outer_interface ≡ s.outer_interface)
                × (t.inner_interface ≡ s.inner_interface))
              (elim r as (λ _. Option (A × State)) [
                | none ↦ none
                | some (a, g) ↦ some (a, record s { gnrc = g })
              ])
      go none h = h
      go (some (a, g)) h = (h, refl, refl, refl)

  abbrev Serves : State → ℕ → State → Type 0
  Serves s r t =
      (r ≡ 0)
      × (calls t.log ≡ served env.module_callback (calls s.log))
      × (t.gnrc ≡ s.gnrc)
      × (t.outer_interface ≡ s.outer_interface)
      × (t.inner_interface ≡ s.inner_interface)

  serve_lem :
      (s : State)
      → Returns
          (λ r t. Serves s r t)
          ((do init_gcoap_fileserver env; say (call (rustmod_start xbd_fns)); pure 0) s)
  unfolding init_gcoap_fileserver
  serve_lem s = elim (Bool-cases env.module_callback) [
    | inl e ↦ rw e (refl, refl, refl, refl, refl)
    | inr e ↦ rw e (refl, refl, refl, refl, refl)
  ]

  abbrev SetsUp : Option Netif → Option Netif → State → ℕ → State → Type 0
  SetsUp outer inner s r t =
      (r ≡ 0)
      × (t.outer_interface ≡ s.outer_interface)
      × (t.inner_interface ≡ s.inner_interface)
      × ((status : ℤ) × Sets env.gnrc outer inner s.gnrc status t.gnrc)
      × (calls t.log ≡ served env.module_callback (calls s.log))

  set_lem :
      (outer inner : Option Netif) (s : State)
      → Returns
          (λ r t. SetsUp outer inner s r t)
          ((do
            status ← in_gnrc (set_ips env.gnrc outer inner)
            init_gcoap_fileserver env
            say (call (rustmod_start xbd_fns))
            pure 0)
            s)
  set_lem outer inner s =
      Returns-bind (in_gnrc (set_ips env.gnrc outer inner))
        (λ status t.
          Sets env.gnrc outer inner s.gnrc status t.gnrc
          × (t.log ≡ s.log)
          × (t.outer_interface ≡ s.outer_interface)
          × (t.inner_interface ≡ s.inner_interface))
        (λ r t. SetsUp outer inner s r t)
        (λ status. do init_gcoap_fileserver env; say (call (rustmod_start xbd_fns)); pure 0) s
        (lens_lem (set_ips env.gnrc outer inner)
          (λ status g. Sets env.gnrc outer inner s.gnrc status g) s
          (set_ips_lem env.gnrc outer inner s.gnrc))
        (λ status t h.
          Returns-map (λ r u. Serves t r u) (λ r u. SetsUp outer inner s r u) _
            (λ r u q. (
              q.0,
              q.3 ∙ h.2,
              q.4 ∙ h.3,
              (status, subst (λ g. Sets env.gnrc outer inner s.gnrc status g) (sym q.2) h.0),
              q.1 ∙ ap (λ l. served env.module_callback (calls l)) h.1,
            ))
            (serve_lem t))

  run_net_lem : (s : State) → Returns (λ r t. Runs (calls s.log) s.gnrc r t) (run_net env s)
  unfolding run_net serve
  run_net_lem s =
      Returns-bind (in_gnrc (find_ifces env.gnrc))
        (λ f t.
          ((f.outer ≡ chosen is_ethernet) × (f.inner ≡ chosen is_other) × OnlyReads s.gnrc t.gnrc)
          × (t.log ≡ s.log)
          × (t.outer_interface ≡ s.outer_interface)
          × (t.inner_interface ≡ s.inner_interface))
        (λ r t. Runs (calls s.log) s.gnrc r t)
        (λ f. do
          modify (λ s. record s { outer_interface = f.outer; inner_interface = f.inner })
          status ← in_gnrc (set_ips env.gnrc f.outer f.inner)
          init_gcoap_fileserver env
          say (call (rustmod_start xbd_fns))
          pure 0)
        s
        (lens_lem (find_ifces env.gnrc)
          (λ f g. (f.outer ≡ chosen is_ethernet) × (f.inner ≡ chosen is_other) × OnlyReads s.gnrc g)
          s (find_ifces_lem env.gnrc s.gnrc))
        (λ f t h.
          Returns-map
            (λ r u.
              SetsUp f.outer f.inner
                (record t { outer_interface = f.outer; inner_interface = f.inner }) r u)
            (λ r u. Runs (calls s.log) s.gnrc r u) _
            (λ r u q. (
              q.0,
              q.1 ∙ h.0.0,
              q.2 ∙ h.0.1,
              (
                t.gnrc,
                q.3.0,
                h.0.2,
                subst (λ o. Sets env.gnrc o (chosen is_other) t.gnrc q.3.0 u.gnrc) h.0.0
                    (subst (λ i. Sets env.gnrc f.outer i t.gnrc q.3.0 u.gnrc) h.0.1 q.3.1),
              ),
              q.4 ∙ ap (λ l. served env.module_callback (calls l)) h.1,
            ))
            (set_lem f.outer f.inner
              (record t { outer_interface = f.outer; inner_interface = f.inner })))

  -- What a start must have done, by whether an Ethernet driver is initialised first, and its answer.
  abbrev pub Starts : Bool → Bool → State → ℕ → State → Type 0
  Starts false failed s r t = Runs (msg_init_queue 16 ∷ calls s.log) s.gnrc r t
  Starts true false s r t = Runs (esp_eth_init ∷ msg_init_queue 16 ∷ calls s.log) s.gnrc r t
  Starts true true s r t =
      (r ≡ 1) × (calls t.log ≡ esp_eth_init ∷ msg_init_queue 16 ∷ calls s.log) × (t.gnrc ≡ s.gnrc)

  after_lem :
      (failed : Bool) (s s' : State)
      → calls s'.log ≡ esp_eth_init ∷ msg_init_queue 16 ∷ calls s.log
      → s'.gnrc ≡ s.gnrc
      → Returns (λ r t. Starts true failed s r t) (after_eth env failed s')
  unfolding after_eth
  after_lem true s s' e g = (refl, e, g)
  after_lem false s s' e g =
      Returns-map (λ r t. Runs (calls s'.log) s'.gnrc r t) (λ r t. Starts true false s r t)
        (run_net env s')
        (λ r t h. subst (λ l. Runs l s.gnrc r t) e (subst (λ n. Runs (calls s'.log) n r t) g h))
        (run_net_lem s')

  with_lem :
      (debug : Bool) (s : State)
      → let s' : State = record s {
        log = call (msg_init_queue 16) ∷ puts "@@ [xbd-net] main(): ^^" ∷ s.log;
      } in
        Returns
          (λ r t. Starts debug (is_set (env.eth_init (call esp_eth_init ∷ s'.log))) s r t)
          (with_eth env debug s')
  unfolding with_eth
  with_lem false s =
      run_net_lem
        (record s { log = call (msg_init_queue 16) ∷ puts "@@ [xbd-net] main(): ^^" ∷ s.log })
  with_lem true s = after_lem (is_set (env.eth_init _)) s _ refl refl

  pub main_lem :
      (s : State)
      → Returns
          (Starts env.debug_eth
            (is_set (
              env.eth_init (
                call esp_eth_init
                ∷ call (msg_init_queue 16)
                ∷ puts "@@ [xbd-net] main(): ^^"
                ∷ s.log)))
            s)
          (main env s)
  unfolding main
  main_lem s = with_lem env.debug_eth s
