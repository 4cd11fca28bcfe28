-- ===== src/Gcoap/Client/Count.antt =====
-- examples/xbd-net/modules/minerva_gcoap/client.c: `_send` keeps the count of requests true.
use studio.Base.{
  ℕ, suc, Bool, true, false, ◌∷◌, ltb, if◌then◌else◌, Bytes, Log, call, ◌≡◌, refl, ◌∙◌, ap, arith,
  inl, inr, Bool-cases,
}
use studio.Lwip.Sock.{Endpoint}
use studio.Gcoap.{Call, Pdu, req_send, Env}
use studio.Gcoap.Count.{sent_in, Counts, Counts-if}
use studio.Gcoap.Client.{send_on, send_found, send}

module _ (env : Env) (base mark : ℕ) where
  sent_lem :
      (pdu : Pdu) (len : ℕ) (remote : Endpoint) (l : Log Call)
      → sent_in env (call (req_send pdu len remote) ∷ l) ≡ (
          if ltb 0 (env.sent (call (req_send pdu len remote) ∷ l))
          then suc (sent_in env l)
          else sent_in env l)
  sent_lem pdu len remote l = refl

  send_on-Counts :
      (pdu : Pdu) (len : ℕ) (remote : Endpoint) → Counts env base mark (send_on env pdu len remote)
  unfolding send_on
  send_on-Counts pdu len remote s v =
      let c = sent_lem pdu len remote s.log in
      elim (Bool-cases (ltb 0 (env.sent (call (req_send pdu len remote) ∷ s.log)))) [
        | inl e ↦
            let c' : sent_in env (call (req_send pdu len remote) ∷ s.log)
                ≡ suc (sent_in env s.log) =
              c ∙ ap (λ b. if b then suc (sent_in env s.log) else sent_in env s.log) e in
            rw e (omega (arith, v.0, v.1, c'), omega (arith, v.1, c'))
        | inr e ↦
            let c' : sent_in env (call (req_send pdu len remote) ∷ s.log) ≡ sent_in env s.log =
              c ∙ ap (λ b. if b then suc (sent_in env s.log) else sent_in env s.log) e in
            rw e (omega (arith, v.0, v.1, c'), omega (arith, v.1, c'))
      ]

  pub send_found-Counts :
      (pdu : Pdu) (len : ℕ) (found : Bool × Endpoint)
      → Counts env base mark (send_found env pdu len found)
  unfolding send_found
  send_found-Counts pdu len (false, ep) s v = v
  send_found-Counts pdu len (true, ep) s v = send_on-Counts pdu len _ s v

  pub send-Counts :
      (pdu : Pdu) (len : ℕ) (addr : Bytes) → Counts env base mark (send env pdu len addr)
  unfolding send
  send-Counts pdu len addr s v =
      Counts-if env base mark s.proxied (λ s'. send_on env pdu len s'.proxy_remote s')
        (λ s'. send_found env pdu len (env.name2ep s'.log addr env.old_remote) s')
        (λ s'. send_on-Counts pdu len s'.proxy_remote s') (λ s'. send_found-Counts pdu len _ s') s v
