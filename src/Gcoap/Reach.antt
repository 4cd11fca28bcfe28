-- ===== src/Gcoap/Reach.antt =====
-- examples/xbd-net/modules/minerva_gcoap and minerva_xbd/gcoap.c: the count that `/cli/stats` answers,
-- over commands, requests of the Rust side, responses, and requests to the server.
use studio.Base.{
  ℕ, ◌+◌, ◌-◌, ◌%◌, ◌^◌, ◌≤◌, ◌<◌, Bool, Option, some, List, ◌++◌, length, true, false, leb,
  replicate, if◌then◌else◌, Bytes, Returns, Returns-map, ◌≡◌, ◌∙◌, ap, arith,
}
use studio.Libc.{strtoul}
use studio.Lwip.Sock.{Endpoint}
use studio.Gcoap.{Pdu, Env, State}
use studio.Gcoap.Count.{sent_in, IsCount}
use studio.Gcoap.Server.{
  Flag, coap_get, coap_post, coap_put, other, text_response, stats_handler,
  riot_board_handler_minerva,
}
use studio.Gcoap.Server.Stats.{
  Answers, Updates, text_answer, stats_handler_lem, riot_board_handler_lem,
}
use studio.Gcoap.Client.Blockwise.{MemoState, Answer, resp_handler}
use studio.Gcoap.Client.Blockwise.Laws.{resp_handler_lem}
use studio.Gcoap.Client.Command.{gcoap_cli_cmd}
use studio.Gcoap.Client.Command.Count.{gcoap_cli_cmd-Counts}
use studio.Gcoap.Bridge.{xbd_gcoap_req_send, xbd_resp_handler}
use studio.Gcoap.Bridge.Laws.{xbd_resp_handler_lem}
use studio.Gcoap.Bridge.Count.{xbd_gcoap_req_send-Counts}

module _ (env : Env) where
  -- How many requests were sent on the way from one state to a later one.
  abbrev pub sent_between : State → State → ℕ
  sent_between s t = sent_in env t.log - sent_in env s.log

  -- What a request for `/cli/stats` makes of the count: a short enough payload of POST or PUT sets it
  -- to the number that it writes.
  abbrev pub set_by : Flag → Bytes → ℕ → ℕ
  set_by coap_get text n = n
  set_by coap_post text n =
      if leb (length text) 5 then strtoul (text ++ replicate (6 - length text) 0) else n
  set_by coap_put text n =
      if leb (length text) 5 then strtoul (text ++ replicate (6 - length text) 0) else n
  set_by (other m) text n = n

  -- The states reached, each with what should have been counted: what was set last, or was there at
  -- the beginning, and the requests that `_send` sent since. A response that asks for the next block
  -- does not go through `_send`.
  pub data Reach (s : State) : ℕ → State → Type 0 where
    here : Reach s s.req_count s
    command :
        {n : ℕ} {t u : State} (argv : List Bytes) (r : ℕ)
        → Reach s n t
        → gcoap_cli_cmd env argv t ≡ some (r, u)
        → Reach s (n + sent_between t u) u
    rust_request :
        {n : ℕ} {t u : State} (addr uri : Bytes) (method : ℕ) (text : Bytes) (blockwise : Bool)
        (idx : ℕ)
        → Reach s n t
        → xbd_gcoap_req_send env addr uri method text blockwise idx t ≡ some (tt, u)
        → Reach s (n + sent_between t u) u
    response :
        {n : ℕ} {t u : State} (memo : MemoState) (answer : Answer) (remote : Endpoint)
        → Reach s n t
        → resp_handler env memo answer remote t ≡ some (tt, u)
        → Reach s n u
    rust_response :
        {n : ℕ} {t u : State} (memo : MemoState) (answer : Answer) (out : MemoState × Option Bytes)
        → Reach s n t
        → xbd_resp_handler env memo answer t ≡ some (out, u)
        → Reach s n u
    stats :
        {n : ℕ} {t u : State} (flag : Flag) (text : Bytes) (r : ℕ × Pdu)
        → length (env.fmt_u16_dec t.req_count) ≤ env.room text_response
        → Reach s n t
        → stats_handler env flag text t ≡ some (r, u)
        → Reach s (set_by flag text n) u
    board :
        {n : ℕ} {t u : State} (name : Bytes) (r : ℕ × Pdu)
        → Reach s n t
        → riot_board_handler_minerva env name t ≡ some (r, u)
        → Reach s n u

  -- What a run that keeps the count true adds to it.
  added :
      (t u : State) (n : ℕ)
      → t.req_count ≡ n % 2 ^ 16
      → IsCount env t.req_count (sent_in env t.log) u
      → u.req_count ≡ (n + sent_between t u) % 2 ^ 16
  added t u n e v = omega (arith, e, v.0)

  starts : (s : State) → s.req_count < 2 ^ 16 → IsCount env s.req_count (sent_in env s.log) s
  starts s h = (omega (arith, h), omega arith)

  updated :
      (short : Bool) (text : Bytes) (n : ℕ) (t : State) (r : ℕ × Pdu) (u : State)
      → t.req_count ≡ n % 2 ^ 16
      → Updates env short text t r u
      → u.req_count
        ≡ (if short then strtoul (text ++ replicate (6 - length text) 0) else n) % 2 ^ 16
  updated true text n t r u e h = h.1
  updated false text n t r u e h = h.1 ∙ e

  answered :
      (flag : Flag) (text : Bytes) (n : ℕ) (t : State) (r : ℕ × Pdu) (u : State)
      → t.req_count ≡ n % 2 ^ 16
      → Answers env flag text t r u
      → u.req_count ≡ set_by flag text n % 2 ^ 16
  answered coap_get text n t r u e h = h.1 ∙ e
  answered coap_post text n t r u e h = updated (leb (length text) 5) text n t r u e h
  answered coap_put text n t r u e h = updated (leb (length text) 5) text n t r u e h
  answered (other m) text n t r u e h = h.1 ∙ e

  Reach-count :
      {s t : State} {n : ℕ} → s.req_count < 2 ^ 16 → Reach s n t → t.req_count ≡ n % 2 ^ 16
  Reach-count h here = omega (arith, h)
  Reach-count h (command {n = n} {t = t} {u = u} argv r p ran) =
      let e = Reach-count h p in
      added t u n e (
        rw ran at (
          gcoap_cli_cmd-Counts env t.req_count (sent_in env t.log) argv t
            (starts t (omega (arith, e)))))
  Reach-count h (rust_request {n = n} {t = t} {u = u} addr uri method text blockwise idx p ran) =
      let e = Reach-count h p in
      added t u n e (
        rw ran at (
          xbd_gcoap_req_send-Counts env t.req_count (sent_in env t.log) addr uri method text
            blockwise idx t (starts t (omega (arith, e)))))
  Reach-count h (response {t = t} memo answer remote p ran) =
      (rw ran at (resp_handler_lem env memo answer remote t)).1.1 ∙ Reach-count h p
  Reach-count h (rust_response {t = t} memo answer out p ran) =
      (rw ran at (xbd_resp_handler_lem env memo answer t)).4.1 ∙ Reach-count h p
  Reach-count h (stats {n = n} {t = t} {u = u} flag text r room p ran) =
      answered flag text n t r u (Reach-count h p)
        (rw ran at (stats_handler_lem env flag text t room))
  Reach-count h (board {t = t} name r p ran) =
      (rw ran at (riot_board_handler_lem env name t)).1 ∙ Reach-count h p

  -- In every state that commands, requests of the Rust side, responses and requests to the server
  -- reach, `/cli/stats` answers a GET with the number that was set last, or the count at the beginning,
  -- and one for every request since, of a command or of the Rust side, of which bytes were sent, modulo
  -- 2 ^ 16: for a count of 16 bits, and a packet with room for the digits of every count.
  pub Reach-answers :
      {s t : State} {n : ℕ} (text : Bytes)
      → s.req_count < 2 ^ 16
      → ((m : ℕ) → length (env.fmt_u16_dec m) ≤ env.room text_response)
      → Reach s n t
      → Returns (λ r _. r ≡ text_answer env (n % 2 ^ 16)) (stats_handler env coap_get text t)
  Reach-answers {s} {t} {n} text h room p =
      Returns-map (Answers env coap_get text t) (λ r _. r ≡ text_answer env (n % 2 ^ 16))
        (stats_handler env coap_get text t) (λ r u a. a.0 ∙ ap (text_answer env) (Reach-count h p))
        (stats_handler_lem env coap_get text t (room t.req_count))
