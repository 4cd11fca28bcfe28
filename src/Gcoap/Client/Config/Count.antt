-- ===== src/Gcoap/Client/Config/Count.antt =====
-- examples/xbd-net/modules/minerva_gcoap/client.c: `info` and `proxy` keep the count of requests true.
use studio.Base.{
  ℕ, Bool, true, false, List, length, get_elem?, ◌==◌, if◌then◌else◌, Bytes, codes, pure, ◌>>◌,
  OnReturn-bind, OnReturn-lift, puts,
}
use studio.Lwip.Sock.{Endpoint}
use studio.Gcoap.{Env, say}
use studio.Gcoap.Server.{server_state}
use studio.Gcoap.Count.{IsCount, Counts, bind_lem, Counts-if}
use studio.Gcoap.Client.Config.{
  is_inet6, print_usage, proxy_usage, word_at, print_proxy, print_dtls, cmd_info, proxy_found,
  cmd_proxy,
}

module _ (env : Env) (base mark : ℕ) where
  pub usage-Counts : (argv : List Bytes) → Counts env base mark (print_usage argv)
  unfolding print_usage
  usage-Counts argv s v =
      OnReturn-lift (λ _ t. IsCount env base mark t) (get_elem? argv 0) _ s (λ name. v)

  proxy_usage-Counts : (argv : List Bytes) → Counts env base mark (proxy_usage argv)
  unfolding proxy_usage
  proxy_usage-Counts argv s v =
      OnReturn-lift (λ _ t. IsCount env base mark t) (get_elem? argv 0) _ s (λ name. v)

  word_at-Counts :
      (argv : List Bytes) (n : ℕ) (word : Bytes) → Counts env base mark (word_at argv n word)
  unfolding word_at
  word_at-Counts argv n word =
      Counts-if env base mark (length argv == n) _ _
        (λ s v. OnReturn-lift (λ _ t. IsCount env base mark t) (get_elem? argv 2) _ s (λ text. v))
        (λ s v. v)

  print_proxy-Counts : (ep : Endpoint) → Counts env base mark (print_proxy env ep)
  unfolding print_proxy
  print_proxy-Counts ep = Counts-if env base mark (is_inet6 ep.family) _ _ (λ s v. v) (λ s v. v)

  print_dtls-Counts : Counts env base mark (print_dtls env)
  unfolding print_dtls
  print_dtls-Counts s v = v

  proxy_found-Counts : (found : Bool × Endpoint) → Counts env base mark (proxy_found env found)
  unfolding proxy_found
  proxy_found-Counts (false, ep) s v = v
  proxy_found-Counts (true, ep) s v = v

  pub cmd_proxy-Counts : (argv : List Bytes) → Counts env base mark (cmd_proxy env argv)
  unfolding cmd_proxy
  cmd_proxy-Counts argv =
      bind_lem env base mark (word_at argv 4 (codes "set")) _ (word_at-Counts argv 4 (codes "set"))
        (λ is_set.
          Counts-if env base mark is_set _ _
            (λ s v.
              OnReturn-lift (λ _ t. IsCount env base mark t) (get_elem? argv 3) _ s
                (λ host. proxy_found-Counts (env.name2ep s.log host s.proxy_remote) s v))
            (bind_lem env base mark (word_at argv 3 (codes "unset")) _
              (word_at-Counts argv 3 (codes "unset"))
              (λ is_unset.
                Counts-if env base mark is_unset _ _ (λ s v. v) (proxy_usage-Counts argv))))

  -- The last lines of `info`.
  info_end :
      (proxied : Bool) (ep : Endpoint)
      → Counts env base mark {A = ℕ}
          (do if proxied then print_proxy env ep else say (puts "None"); pure 0)
  info_end proxied ep s v =
      OnReturn-bind (if proxied then print_proxy env ep else say (puts "None"))
        (λ _ t. IsCount env base mark t) (λ _ t. IsCount env base mark t) (λ _. pure 0) s
        (Counts-if env base mark proxied _ _ (print_proxy-Counts ep) (λ s v. v) s v) (λ _ t w. w)

  pub cmd_info-Counts : Counts env base mark (cmd_info env)
  unfolding cmd_info server_state
  cmd_info-Counts s v =
      OnReturn-bind (if env.module_gcoap_dtls then print_dtls env else pure tt)
        (λ _ t. IsCount env base mark t) (λ _ t. IsCount env base mark t) _ _
        (Counts-if env base mark env.module_gcoap_dtls _ _ print_dtls-Counts (λ s v. v) _ v)
        (λ _ t w. info_end t.proxied t.proxy_remote _ w)
