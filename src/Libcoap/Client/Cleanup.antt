-- ===== src/Libcoap/Client/Cleanup.antt =====
-- examples/xbd-net/modules/minerva_libcoap: what a whole run of the client has done and leaves.
use studio.Base.{
  ℕ, ◌*◌, ◌^◌, ◌<◌, true, false, Option, none, some, List, [], ◌∷◌, length, take, ltb, Bytes, Prog,
  pure, Returns, Returns-bind, Returns-then, ◌>>=◌, ◌>>◌, calls, call, ◌≡◌, refl, ◌∙◌, arith,
}
use std.Path.{subst}
use studio.Libc.Decimal.{decimal}
use studio.Libcoap.{
  Uri, resolve_address_info, new_context, set_block_mode, Env, State, resolve_address,
}
use studio.Libcoap.Client.{
  request, with_context, with_address, with_uri, finish, run_client, client_coap_init,
  libcoap_cli_cmd,
}
use studio.Libcoap.Wait.{Progress}
use studio.Libcoap.Resolve.{Resolves, resolve_address_lem}
use studio.Libcoap.Client.Session.{WaitFits, LeisureFits, Requests, request_lem}
use studio.Libcoap.Client.Outcome.{
  make_session_lem, closed, finish_lem, Asked, Opened, Found, Runs-map, Fails, IsFresh, closing,
  Closes, started, session_call, Runs, PortFits, Serves,
}

module _ (env : Env) (fuel : ℕ) (progress : Progress env) (leisure_fits : LeisureFits env)
    (enough : 2 ^ 16 * 1000 < fuel) where
  asked_lem :
      (ses : Option ℕ) (ctx : ℕ) (s : State)
      → s.main_coap_context ≡ some ctx
      → WaitFits s
      → Returns
          (λ r t. Asked env (Fails env r t) ses ctx s.log)
          ((do request env fuel ses; pure ses) s)
  asked_lem none ctx s e w =
      Returns-then (request env fuel none) (λ _ t. Requests none s t)
        (λ (r : Option ℕ) (t : State). Asked env (Fails env r t) none ctx s.log) (pure none) s
        (request_lem env fuel progress leisure_fits enough none s w)
        (λ _ t h. (refl, h.1 ∙ e, h.0, h.2))
  asked_lem (some ses) ctx s e w =
      Returns-then (request env fuel (some ses)) (λ _ t. Requests (some ses) s t)
        (λ (r : Option ℕ) (t : State). Asked env (Fails env r t) (some ses) ctx s.log)
        (pure (some ses)) s (request_lem env fuel progress leisure_fits enough (some ses) s w)
        (λ _ t (made, m, k). (calls t.log, made, (refl, m ∙ e, refl, k)))

  opened_lem :
      (ctx : Option ℕ) (uri : Uri) (dst : Bytes) (s : State)
      → s.main_coap_context ≡ ctx
      → WaitFits s
      → Returns
          (λ r t. Opened env (Fails env r t) ctx uri dst s.log)
          (with_context env fuel uri dst ctx s)
  unfolding with_context
  opened_lem none uri dst s e w = (refl, e, refl, w)
  opened_lem (some ctx) uri dst s e w =
      let s1 = record s { log = call set_block_mode ∷ s.log } in
      rw (make_session_lem env uri dst s1, ◌>>=◌)
        (asked_lem (env.session (call (session_call env uri dst) ∷ s1.log)) ctx
          (record s { log = call (session_call env uri dst) ∷ s1.log }) e w)

  found_lem :
      (found : Option Bytes) (uri : Uri) (s : State)
      → s.main_coap_context ≡ none
      → WaitFits s
      → Returns
          (λ r t. Found env (Fails env r t) found uri s.log)
          (with_address env fuel uri found s)
  unfolding with_address
  found_lem none uri s e w = (refl, e, refl, w)
  found_lem (some dst) uri s e w =
      opened_lem (env.context (call new_context ∷ s.log)) uri dst _ refl w

  runs_lem :
      (text : Bytes) (parsed : Option Uri) (s : State)
      → ((uri : Uri) → parsed ≡ some uri → uri.port < 2 ^ 16)
      → s.main_coap_context ≡ none
      → WaitFits s
      → Returns (λ r t. Runs env (Fails env r t) parsed s.log) (with_uri env fuel text parsed s)
  unfolding with_uri
  runs_lem text none s port e w = (refl, e, refl, w)
  runs_lem text (some uri) s port e w =
      Returns-bind
        (resolve_address env (take 99 uri.host) (take 7 (decimal uri.port)) (2 ^ uri.scheme))
        (Resolves env (take 99 uri.host) uri.port (2 ^ uri.scheme) s)
        (λ r t. Runs env (Fails env r t) (some uri) s.log)
        (λ found. with_address env fuel uri found) s
        (resolve_address_lem env (take 99 uri.host) uri.port (2 ^ uri.scheme) s (port uri refl))
        (λ found t h.
          let answer =
            env.resolved
              (call (resolve_address_info (take 99 uri.host) uri.port (2 ^ uri.scheme)) ∷ s.log) in
          rw h.0 (
            subst
              (λ l.
                Returns (λ r t'. Found env (Fails env r t') answer uri l)
                  (with_address env fuel uri answer t))
              h.1
              (found_lem answer uri t (h.3 ∙ e)
                (omega (arith, h.6, w.0), omega (arith, h.6, w.1)))))

  run_client_lem :
      (text : Bytes) (s : State)
      → PortFits env
      → IsFresh s
      → Returns
          (λ _ t. Runs env (Closes t) (env.split_uri text) (started text s))
          (run_client env fuel text s)
  unfolding run_client
  run_client_lem text s port v =
      let s1 = record s { log = started text s } in
      Returns-bind (with_uri env fuel text (env.split_uri text))
        (λ r t. Runs env (Fails env r t) (env.split_uri text) s1.log)
        (λ _ t. Runs env (Closes t) (env.split_uri text) s1.log) (λ ses. finish env ses) s1
        (runs_lem text (env.split_uri text) s1 (port text) v.2 v.3)
        (λ r t h. rw (finish_lem env r t) (
          Runs-map env (Fails env r t) (Closes (closed env r t))
            (λ ses ctx cs (a, b, c, w).
              (t.optlist, λ i. closing (a i) (b i) t.optlist (c i), (refl, refl, refl, w)))
            (env.split_uri text) s1.log h))

  done_lem :
      (uri : Bytes) (m : Prog State Unit) (s : State)
      → Returns (λ _ t. Runs env (Closes t) (env.split_uri uri) (started uri s)) (m s)
      → Returns
          (λ (r : ℕ) (t : State). (r ≡ 0) × Runs env (Closes t) (env.split_uri uri) (started uri s))
          ((do m; pure 0) s)
  done_lem uri m s h =
      Returns-then m (λ _ t. Runs env (Closes t) (env.split_uri uri) (started uri s))
        (λ (r : ℕ) (t : State). (r ≡ 0) × Runs env (Closes t) (env.split_uri uri) (started uri s))
        (pure 0) s h (λ _ t q. (refl, q))

  pub libcoap_cli_cmd_lem :
      (name : Bytes) (args : List Bytes) (s : State)
      → PortFits env
      → IsFresh s
      → Returns (Serves env args s) (libcoap_cli_cmd env fuel (name ∷ args) s)
  unfolding libcoap_cli_cmd client_coap_init
  libcoap_cli_cmd_lem name [] s port v = (refl, refl, v)
  libcoap_cli_cmd_lem name (uri ∷ args) s port v =
      let e : ltb (length (name ∷ uri ∷ args)) 2 ≡ false = ground arith in
      let f : ltb 1 (length (name ∷ uri ∷ args)) ≡ true = ground arith in
      rw (e, f) (done_lem uri (run_client env fuel uri) s (run_client_lem uri s port v))
