-- ===== src/Tests/Bridge.antt =====
-- minerva_xbd's bridge at the system of the client's tests.
use studio.Base.{
  ℕ, ◌+◌, true, false, none, some, [], ◌∷◌, replicate, printf, num, str, call, length-replicate,
  codes, Returns, ◌≡◌, refl, ◌%◌, ◌^◌, arith,
}
use studio.Gcoap.Client.Blockwise.{resp}
use studio.Gcoap
use studio.Gcoap.Server.{
  notify_observers, notify, notification, put_payload, coap_get, stats_handler,
}
use studio.Gcoap.Server.Stats.{text_answer}
use studio.Gcoap.Client.{send_found, send_on, with_port}
use studio.Gcoap.Reach.{here, rust_request, Reach-answers}
use studio.Gcoap.Bridge.{
  first_packet, xbd_gcoap_req_send, header_for, send_payload, copy_payload, send_to,
  xbd_resp_handler,
}
use studio.Gcoap.Bridge.Laws.{Handles, xbd_resp_handler_lem}
use studio.Gcoap.Bridge.Request.{
  Sent, carrying, header_of, xbd_gcoap_req_send_lem, xbd_gcoap_req_overruns,
}
use studio.Tests.Client.{env, peer, direct, response}

xbd_resp_handler_lem_example :
    Returns (Handles env resp response direct) (xbd_resp_handler env resp response direct)
xbd_resp_handler_lem_example = xbd_resp_handler_lem env resp response direct

xbd_gcoap_req_send_lem_example :
    Returns
      (λ _ t.
        Sent env
          (carrying (codes "0") (header_of env [] 3 (codes "/cli/stats") (codes "0")).0)
          (7 + 1)
          (codes "[fe80::1]")
          direct
          t)
      (xbd_gcoap_req_send env (codes "[fe80::1]") (codes "/cli/stats") 3 (codes "0") true 2 direct)
xbd_gcoap_req_send_lem_example =
    xbd_gcoap_req_send_lem env (codes "[fe80::1]") (codes "/cli/stats") 3 (codes "0") true 2 direct
      (λ n. omega arith) (omega arith)

xbd_gcoap_req_overruns_example :
    xbd_gcoap_req_send env
      (codes "[fe80::1]")
      (codes "/cli/stats")
      3
      (1 ∷ replicate 128 0)
      false
      2
      direct
    ≡ none
xbd_gcoap_req_overruns_example =
    xbd_gcoap_req_overruns env (codes "[fe80::1]") (codes "/cli/stats") 3 1 (replicate 128 0) false
      2 direct (omega (arith, length-replicate {A = ℕ} 128 0))

-- The state after a request of the Rust side. Its count was the largest, and starts again at 0.
abbrev requested : Gcoap.State
requested = record direct {
  req_count = 0;
  log =
      call (Gcoap.obs_send (Gcoap.payload (codes "1") ∷ notification) 8)
      ∷ call (Gcoap.req_send (first_packet 1 (codes "/a") false) 7 (record peer { port = 5683 }))
      ∷ printf "@@ payload: %p payload_len: %d\n" (num 0 ∷ [])
      ∷ printf "@@ xbd_gcoap_req_send(): addr: %s, uri: %s hdr_len: %u\n"
          (str (codes "[fe80::1]") ∷ str (codes "/a") ∷ num 7 ∷ [])
      ∷ printf "@@ sending msg (ID=%u)\n" (num 1 ∷ [])
      ∷ [];
}

requested_runs :
    xbd_gcoap_req_send env (codes "[fe80::1]") (codes "/a") 1 [] false 0 direct
    ≡ some (tt, requested)
unfolding xbd_gcoap_req_send header_for send_payload copy_payload send_to send_found send_on
    with_port notify_observers notify put_payload
requested_runs = refl

Reach-answers_example :
    Returns
      (λ r _. r ≡ text_answer env ((65535 + 1) % 2 ^ 16))
      (stats_handler env coap_get [] requested)
Reach-answers_example =
    Reach-answers env [] (omega arith) (λ n. omega arith)
      (rust_request (codes "[fe80::1]") (codes "/a") 1 [] false 0 here requested_runs)
