-- ===== src/Gcoap/Client/Command/Send.antt =====
-- examples/xbd-net/modules/minerva_gcoap/client.c: what a request sends, with a proxy and without.
use studio.Base.{
  take-all, ℕ, ◌<◌, Bool, true, false, Option, none, some, List, [], ◌∷◌, length, take, ltb,
  if◌then◌else◌, Bytes, Prog, pure, gets, Returns, ◌>>=◌, ◌≡◌, refl, sym, ◌∙◌, ap, inl, inr, arith,
  Bool-cases, ◌↔◌, length-take,
}
use std.Path.{subst}
use studio.Lwip.Sock.{Endpoint}
use studio.Gcoap.{MsgType, Method, req_init, Pdu, Env, State}
use studio.Gcoap.Client.{kept_path, with_port}
use studio.Gcoap.Client.Command.{
  bad_path, path_text, full_uri, prepare_proxied, prepare, send_prepared, request_method,
}
use studio.Gcoap.Client.Command.Message.{NotificationFits, Issues, issues_lem}

module _ (env : Env) where
  chosen : Bool → Method → Option Bytes → Bytes → Prog State (Option (Bytes × ℕ × Pdu))
  chosen proxied m path addr =
      if proxied
      then (do
        found ← gets (λ s. env.name2ep s.log addr env.old_remote)
        prepare_proxied env m path found)
      else pure (some (path_text path, length (path_text path), req_init m path ∷ []))

  request_method_step :
      (argv : List Bytes) (m : Method) (t : MsgType) (addr : Bytes) (path : Option Bytes)
      (text : Bytes) (s : State)
      → bad_path path ≡ false
      → request_method env argv m t addr path text s
        ≡ (chosen s.proxied m path addr >>= send_prepared env argv t addr text) s
  unfolding request_method prepare chosen
  request_method_step argv m t addr path text s good = rw good refl

  pub request_direct_lem :
      (argv : List Bytes) (m : Method) (t : MsgType) (addr : Bytes) (path : Option Bytes)
      (text : Bytes) (s : State)
      → bad_path path ≡ false
      → s.proxied ≡ false
      → NotificationFits env
      → Returns
          (Issues env t addr text
            (path_text path)
            (length (path_text path))
            (req_init m path ∷ [])
            s)
          (request_method env argv m t addr path text s)
  unfolding chosen
  request_direct_lem argv m t addr path text s good direct fits =
      rw (request_method_step argv m t addr path text s good) (
        subst
          (λ b.
            Returns
              (Issues env t addr text (path_text path) (length (path_text path))
                (req_init m path ∷ []) s)
              ((chosen b m path addr >>= send_prepared env argv t addr text) s))
          (sym direct)
          (issues_lem env argv t addr text (path_text path) (length (path_text path))
            (req_init m path ∷ []) s fits))

  by_proxy_lem :
      (argv : List Bytes) (m : Method) (t : MsgType) (addr : Bytes) (path : Option Bytes)
      (text : Bytes) (s : State) (ep : Endpoint) (P : ℕ → State → Type 0)
      → bad_path path ≡ false
      → s.proxied ≡ true
      → env.name2ep s.log addr env.old_remote ≡ (true, ep)
      → Returns P ((prepare_proxied env m path (true, ep) >>= send_prepared env argv t addr text) s)
      → Returns P (request_method env argv m t addr path text s)
  unfolding chosen
  by_proxy_lem argv m t addr path text s ep P good proxied found h =
      rw (request_method_step argv m t addr path text s good) (
        subst (λ b. Returns P ((chosen b m path addr >>= send_prepared env argv t addr text) s))
          (sym proxied)
          (subst
            (λ f.
              Returns P ((prepare_proxied env m path f >>= send_prepared env argv t addr text) s))
            (sym found) h))

  -- The URI of a request by the proxy, from what the lookup of its address found.
  abbrev pub proxy_uri_of : Endpoint → Bytes → Bytes
  proxy_uri_of ep path = full_uri env (with_port env ep) path

  pub request_proxied_lem :
      (argv : List Bytes) (m : Method) (t : MsgType) (addr path text : Bytes) (s : State)
      (ep : Endpoint)
      → bad_path (some path) ≡ false
      → s.proxied ≡ true
      → env.name2ep s.log addr env.old_remote ≡ (true, ep)
      → NotificationFits env
      → Returns
          (Issues env t addr text
            (take 63 (proxy_uri_of ep path))
            (length (proxy_uri_of ep path))
            (req_init m none ∷ [])
            (record s { proxy_uri = take 63 (proxy_uri_of ep path) }))
          (request_method env argv m t addr (some path) text s)
  request_proxied_lem argv m t addr path text s ep good proxied found fits =
      by_proxy_lem argv m t addr (some path) text s ep _ good proxied found (
        unfold prepare_proxied in
        issues_lem env argv t addr text (take 63 (proxy_uri_of ep path))
          (length (proxy_uri_of ep path)) (req_init m none ∷ [])
          (record s { proxy_uri = take 63 (proxy_uri_of ep path) }) fits)

  cut_lem :
      (uri : Bytes)
      → ((take 63 uri ≡ uri) ↔ (length uri < 64))
        × (kept_path (take 63 uri) (length uri) ≡ (if ltb (length uri) 64 then uri else []))
  unfolding kept_path
  cut_lem uri = (
    (λ e. omega (arith, length-take 63 uri, ap length e), λ h. take-all 63 uri (omega arith)),
    elim (Bool-cases (ltb (length uri) 64)) [
      | inl f ↦
          let h : length uri < 64 = ground arith in
          rw f
            (ap (take (length uri)) (take-all 63 uri (omega arith)) ∙ take-all _ uri (omega arith))
      | inr f ↦ rw f refl
    ],
  )

  -- The URI is sent whole exactly if it has fewer than 64 bytes, and then it is kept for blockwise
  -- transfers. A longer one is replaced by another text, its first 63 bytes, and nothing is kept.
  pub proxy_uri_cut :
      (ep : Endpoint) (path : Bytes)
      → let uri = proxy_uri_of ep path in
        ((take 63 uri ≡ uri) ↔ (length uri < 64))
        × (kept_path (take 63 uri) (length uri) ≡ (if ltb (length uri) 64 then uri else []))
  proxy_uri_cut ep path = cut_lem (proxy_uri_of ep path)
