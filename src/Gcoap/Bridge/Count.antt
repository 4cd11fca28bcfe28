-- ===== src/Gcoap/Bridge/Count.antt =====
-- examples/xbd-net/modules/minerva_xbd/gcoap.c: the requests of the Rust side keep the count true.
use studio.Base.{
  ℕ, ◌+◌, Bool, true, false, [], ◌∷◌, length, ◌==◌, if◌then◌else◌, Bytes, pure, printf, num,
  OnReturn-bind, OnReturn-lift,
}
use studio.Gcoap.{Pdu, Env, say}
use studio.Gcoap.Count.{IsCount, Counts, bind_lem, Counts-if}
use studio.Gcoap.Server.Count.{notify_observers-Counts}
use studio.Gcoap.Client.{empty}
use studio.Gcoap.Client.Count.{send_found-Counts}
use studio.Gcoap.Bridge.{send_to, header_for, copy_payload, send_payload, xbd_gcoap_req_send}

module _ (env : Env) (base mark : ℕ) where
  send_to-Counts :
      (pdu : Pdu) (len : ℕ) (addr : Bytes) → Counts env base mark (send_to env pdu len addr)
  unfolding send_to
  send_to-Counts pdu len addr s v =
      send_found-Counts env base mark pdu len (env.name2ep s.log addr env.old_remote) s v

  send_payload-Counts :
      (pdu : Pdu) (hdr_len : ℕ) (text addr : Bytes)
      → Counts env base mark (send_payload env pdu hdr_len text addr)
  unfolding send_payload
  send_payload-Counts pdu hdr_len text addr s v =
      OnReturn-lift (λ _ t. IsCount env base mark t) (copy_payload env pdu hdr_len text) _ s
        (λ pdu'.
          bind_lem env base mark (send_to env pdu' (hdr_len + length text) addr) _
            (send_to-Counts pdu' _ addr)
            (λ n.
              Counts-if env base mark (n == 0) _ _ (λ s v. v)
                (notify_observers-Counts env base mark))
            s v)

  header_for-Counts :
      (copied : Bytes) (idx method : ℕ) (uri : Bytes) (has_payload : Bool)
      → Counts env base mark (header_for env copied idx method uri has_payload)
  unfolding header_for
  header_for-Counts [] idx method uri has_payload s v = v
  header_for-Counts (c ∷ cs) idx method uri has_payload s v = v

  -- Every request of the Rust side keeps the count true.
  pub xbd_gcoap_req_send-Counts :
      (addr uri : Bytes) (method : ℕ) (text : Bytes) (blockwise : Bool) (idx : ℕ)
      → Counts env base mark (xbd_gcoap_req_send env addr uri method text blockwise idx)
  unfolding xbd_gcoap_req_send
  xbd_gcoap_req_send-Counts addr uri method text blockwise idx s v =
      OnReturn-bind
        (header_for env (if blockwise then env.hdr_copy s.log idx else []) idx method uri
          (if empty text then false else true))
        (λ _ t. IsCount env base mark t) (λ _ t. IsCount env base mark t) _ s
        (header_for-Counts _ idx method uri _ s v)
        (λ (pdu, hdr_len) t w.
          OnReturn-bind
            (if blockwise
              then say (printf "@@ debug - blockwise_state_index: %u\n" (num idx ∷ []))
              else pure tt)
            (λ _ t. IsCount env base mark t) (λ _ t. IsCount env base mark t) _ _
            (Counts-if env base mark blockwise _ _ (λ s v. v) (λ s v. v) _ w)
            (λ _ u x. send_payload-Counts pdu hdr_len text addr _ x))
