-- ===== src/Gcoap/Client/Config.antt =====
-- examples/xbd-net/modules/minerva_gcoap/client.c: the commands `info` and `proxy`.
pub mod Laws
pub mod Count
use studio.Base.{
  ℕ, Bool, true, false, List, [], ◌∷◌, length, get_elem?, ◌==◌, if◌then◌else◌, Bytes, codes, str_eq,
  Prog, pure, lift, gets, modify, ◌>>=◌, ◌>>◌, puts, printf, num, str,
}
use studio.Lwip.Sock.{Family, unspec, inet, inet6, Endpoint}
use studio.Gcoap.{Env, State, say}
use studio.Gcoap.Server.{server_state}
use studio.Gcoap.Client.{default_port, with_port}

pub is_inet6 : Family → Bool
is_inet6 inet6 = true
is_inet6 inet = false
is_inet6 unspec = false

unfoldable pub print_usage : List Bytes → Prog State ℕ
print_usage argv = do
  name ← lift (get_elem? argv 0)
  say (printf "usage: %s <get|post|put|ping|proxy|info|server>\n" (str name ∷ []))
  pure 1

proxy_usage : List Bytes → Prog State ℕ
proxy_usage argv = do
  name ← lift (get_elem? argv 0)
  say (printf "usage: %s proxy set <host>[:port]\n" (str name ∷ []))
  say (printf "       %s proxy unset\n" (str name ∷ []))
  pure 1

-- `(argc == n) && (strcmp(argv[2], word) == 0)`
word_at : List Bytes → ℕ → Bytes → Prog State Bool
word_at argv n word =
    if length argv == n
    then (do text ← lift (get_elem? argv 2); pure (str_eq text word))
    else pure false

module _ (env : Env) where
  print_proxy : Endpoint → Prog State Unit
  print_proxy ep =
      if is_inet6 ep.family
      then say (printf "[%s]:%u\n" (str (env.inet_ntop ep) ∷ num ep.port ∷ []))
      else say (printf "%s:%u\n" (str (env.inet_ntop ep) ∷ num ep.port ∷ []))

  print_dtls : Prog State Unit
  print_dtls = do
    say (printf "Connection secured with DTLS\n" [])
    available ← gets (λ s. env.dsm_available s.log)
    maximum ← gets (λ s. env.dsm_maximum s.log)
    say (printf "Free DTLS session slots: %d/%d\n" (num available ∷ num maximum ∷ []))

  pub cmd_info : Prog State ℕ
  cmd_info = do
    initialised ← server_state env
    say (
        printf "@@ server_state(): %s initialized\n"
          (str (if initialised then codes "ALREADY" else codes "NOT") ∷ []))
    open_reqs ← gets (λ s. env.op_state s.log)
    say (printf "CoAP server is listening on port %u\n" (num (default_port env) ∷ []))
    if env.module_gcoap_dtls then print_dtls else pure tt
    count ← gets (λ s. s.req_count)
    say (printf " CLI requests sent: %u\n" (num count ∷ []))
    say (printf "CoAP open requests: %u\n" (num open_reqs ∷ []))
    say (printf "Configured Proxy: " [])
    proxied ← gets (λ s. s.proxied)
    remote ← gets (λ s. s.proxy_remote)
    if proxied then print_proxy remote else say (puts "None")
    pure 0

  -- `_proxy_remote` is the buffer of the lookup, so that it changes where the lookup fails, too.
  proxy_found : Bool × Endpoint → Prog State ℕ
  proxy_found (false, ep) = do
    modify (λ s. record s { proxy_remote = ep })
    say (puts "Could not set proxy")
    pure 1
  proxy_found (true, ep) = do
    modify (λ s. record s { proxy_remote = with_port env ep; proxied = true })
    pure 0

  pub cmd_proxy : List Bytes → Prog State ℕ
  cmd_proxy argv = do
    is_set ← word_at argv 4 (codes "set")
    if is_set
        then (do
          host ← lift (get_elem? argv 3)
          found ← gets (λ s. env.name2ep s.log host s.proxy_remote)
          proxy_found found)
        else do
          is_unset ← word_at argv 3 (codes "unset")
          if is_unset
              then (do
                modify (λ s. record s { proxy_remote = env.unset_remote; proxied = false })
                pure 0)
              else proxy_usage argv
