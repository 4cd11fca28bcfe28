-- ===== src/Gcoap/Client/Config/Laws.antt =====
-- examples/xbd-net/modules/minerva_gcoap/client.c: what `info` and `proxy` do.
use studio.Base.{
  ℕ, Bool, true, false, List, [], ◌∷◌, if◌then◌else◌, Bytes, codes, str_eq, Returns, calls, ◌≡◌,
  refl, inl, inr, arith, Bool-cases,
}
use studio.Lwip.Sock.{Endpoint}
use studio.Gcoap.{Env, State}
use studio.Gcoap.Server.{server_state}
use studio.Gcoap.Client.{with_port}
use studio.Gcoap.Same.{SameVars}
use studio.Gcoap.Client.Config.{
  print_proxy, print_dtls, cmd_info, proxy_found, proxy_usage, word_at, cmd_proxy,
}

-- What a line of `proxy` asks for.
pub data ProxyRequest : Type 0 where
  set_proxy : Bytes → ProxyRequest
  unset_proxy : ProxyRequest
  no_proxy : ProxyRequest

-- The arguments behind `proxy`.
abbrev pub proxy_args : List Bytes → ProxyRequest
proxy_args [] = no_proxy
proxy_args (verb ∷ []) = if str_eq verb (codes "unset") then unset_proxy else no_proxy
proxy_args (verb ∷ host ∷ []) = if str_eq verb (codes "set") then set_proxy host else no_proxy
proxy_args (verb ∷ host ∷ x ∷ more) = no_proxy

-- All but the proxy and the log is as it was, and no call was made.
abbrev pub SameButProxy : State → State → Type 0
SameButProxy s t =
    (calls t.log ≡ calls s.log)
    × (t.server_init_done ≡ s.server_init_done)
    × (t.req_count ≡ s.req_count)
    × (t.proxy_uri ≡ s.proxy_uri)
    × (t.last_req_path ≡ s.last_req_path)

module _ (env : Env) where
  abbrev pub FindsProxy : Bool × Endpoint → State → ℕ → State → Type 0
  FindsProxy (true, ep) s r t =
      (r ≡ 0) × (t.proxied ≡ true) × (t.proxy_remote ≡ with_port env ep) × SameButProxy s t
  FindsProxy (false, ep) s r t =
      (r ≡ 1) × (t.proxied ≡ s.proxied) × (t.proxy_remote ≡ ep) × SameButProxy s t

  -- What each line must have done.
  abbrev pub Configures : ProxyRequest → State → ℕ → State → Type 0
  Configures (set_proxy host) s r t = FindsProxy (env.name2ep s.log host s.proxy_remote) s r t
  Configures unset_proxy s r t =
      (r ≡ 0) × (t.proxied ≡ false) × (t.proxy_remote ≡ env.unset_remote) × SameButProxy s t
  Configures no_proxy s r t =
      (r ≡ 1) × (t.proxied ≡ s.proxied) × (t.proxy_remote ≡ s.proxy_remote) × SameButProxy s t

  found_lem :
      (found : Bool × Endpoint) (s : State) → Returns (FindsProxy found s) (proxy_found env found s)
  unfolding proxy_found
  found_lem (true, ep) s = (refl, refl, refl, (refl, refl, refl, refl, refl))
  found_lem (false, ep) s = (refl, refl, refl, (refl, refl, refl, refl, refl))

  -- `proxy set` with one host and `proxy unset` alone set and reset the proxy; a host that is not
  -- found fails with status 1 and leaves in the proxy's endpoint what the lookup left there. Every
  -- other line fails with status 1 and changes nothing. No call is made.
  pub cmd_proxy_lem :
      (name verb : Bytes) (args : List Bytes) (s : State)
      → Returns (Configures (proxy_args args) s) (cmd_proxy env (name ∷ verb ∷ args) s)
  unfolding cmd_proxy word_at proxy_usage
  cmd_proxy_lem name verb [] s = (refl, refl, refl, (refl, refl, refl, refl, refl))
  cmd_proxy_lem name verb (what ∷ []) s = elim (Bool-cases (str_eq what (codes "unset"))) [
    | inl e ↦ rw e (refl, refl, refl, (refl, refl, refl, refl, refl))
    | inr e ↦ rw e (refl, refl, refl, (refl, refl, refl, refl, refl))
  ]
  cmd_proxy_lem name verb (what ∷ host ∷ []) s = elim (Bool-cases (str_eq what (codes "set"))) [
    | inl e ↦ rw e (found_lem (env.name2ep s.log host s.proxy_remote) s)
    | inr e ↦ rw e (refl, refl, refl, (refl, refl, refl, refl, refl))
  ]
  cmd_proxy_lem name verb (what ∷ host ∷ x ∷ more) s = ground arith

  -- `info` returns 0, makes no call and changes nothing.
  pub cmd_info_lem :
      (s : State)
      → Returns (λ r t. (r ≡ 0) × (calls t.log ≡ calls s.log) × SameVars s t) (cmd_info env s)
  unfolding cmd_info print_dtls print_proxy server_state
  cmd_info_lem s = ground arith
