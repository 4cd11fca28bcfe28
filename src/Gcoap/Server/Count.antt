-- ===== src/Gcoap/Server/Count.antt =====
-- examples/xbd-net/modules/minerva_gcoap/server.c: the notifications and the initialisation keep the
-- count of requests true.
use studio.Base.{ℕ, ◌∷◌, OnReturn-lift, call, is_neg, inl, inr, Bool-cases}
use studio.Gcoap.{add_credential, ObsInit, obs_ok, obs_unused, obs_err, Env}
use studio.Gcoap.Count.{IsCount, Counts, Counts-if}
use studio.Gcoap.Server.{
  notify, notify_observers, put_payload, notification, start_listening, use_credential, with_dtls,
  server_init, refused,
}

module _ (env : Env) (base mark : ℕ) where
  notify-Counts : (found : ObsInit) → Counts env base mark (notify env found)
  unfolding notify
  notify-Counts obs_ok s v =
      OnReturn-lift (λ _ t. IsCount env base mark t)
        (put_payload env notification (env.fmt_u16_dec s.req_count)) _ s (λ pdu. v)
  notify-Counts obs_unused s v = v
  notify-Counts obs_err s v = v

  pub notify_observers-Counts : Counts env base mark (notify_observers env)
  unfolding notify_observers
  notify_observers-Counts s v = notify-Counts (env.observers s.log) s v

  start-Counts : Counts env base mark (start_listening env)
  unfolding start_listening
  start-Counts s v = v

  use_credential-Counts : Counts env base mark (use_credential env)
  unfolding use_credential
  use_credential-Counts s v =
      elim (Bool-cases (is_neg (env.dtls_credential (call add_credential ∷ s.log)))) [
        | inl e ↦ rw e (start-Counts _ v)
        | inr e ↦ rw e (start-Counts _ v)
      ]

  with_dtls-Counts : Counts env base mark (with_dtls env)
  unfolding with_dtls
  with_dtls-Counts s v =
      Counts-if env base mark (refused env (env.credential _)) _ _ (λ s v. v) use_credential-Counts
        _ v

  pub server_init-Counts : Counts env base mark (server_init env)
  unfolding server_init
  server_init-Counts s v =
      Counts-if env base mark s.server_init_done _ _ (λ s v. v)
        (λ s v. Counts-if env base mark env.module_gcoap_dtls _ _ with_dtls-Counts start-Counts _ v)
        s v
