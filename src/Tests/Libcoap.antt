-- ===== src/Tests/Libcoap.antt =====
-- The client over libcoap at a concrete system.
use studio.Base.{
  ℕ, ◌<◌, ◌≤◌, ◌^◌, true, false, none, some, List, [], ◌∷◌, take, pos, negsuc, codes, Returns, ◌≡◌,
  refl, arith, ◌||◌,
}
use studio.Libc.Decimal.{decimal}
use studio.Libcoap
use studio.Libcoap.Client
use studio.Libcoap.Events.{any_ends, Quiet, run_handlers_lem}
use studio.Libcoap.Resolve.{Resolves, resolve_address_lem}
use studio.Libcoap.Wait.{Waits, wait_loop_lem, wait_loop_spins}
use studio.Libcoap.Client.Outcome.{Serves}
use studio.Libcoap.Client.Cleanup.{libcoap_cli_cmd_lem}

abbrev uri : Libcoap.Uri
uri = record { host = codes "::1"; port = 5683; scheme = 0 }

abbrev env : Libcoap.Env
env = record {
  scheme_coap = 0;
  scheme_coap_tcp = 2;
  split_uri = λ text. some uri;
  resolved = λ l. some (1 ∷ []);
  multicast = λ dst. false;
  context = λ l. some 1;
  session = λ l. some 2;
  pdu = λ l. some 3;
  options = λ l. (some 4, true);
  added = λ l. (some 4, true);
  leisure = λ l. 5;
  sent = λ l. true;
  io = λ l. ([], pos 1000);
}

-- libcoap, where every wait fails.
abbrev broken : Libcoap.Env
broken = record (env) { io = λ l. ([], negsuc 0) }

abbrev fresh : Libcoap.State
fresh = record {
  main_coap_context = none;
  optlist = none;
  quit = false;
  is_mcast = false;
  wait_seconds = 15;
  log = [];
}

port_lem : (v : Libcoap.Uri) → some uri ≡ some v → v.port < 2 ^ 16
port_lem v e = ground arith

libcoap_cli_cmd_lem_example :
    Returns
      (Serves env (codes "coap://[::1]" ∷ []) fresh)
      (Client.libcoap_cli_cmd env 65536001 (codes "libcoap" ∷ codes "coap://[::1]" ∷ []) fresh)
libcoap_cli_cmd_lem_example =
    libcoap_cli_cmd_lem env 65536001 (λ l. (999, refl)) (λ l. omega arith) (omega arith)
      (codes "libcoap") (codes "coap://[::1]" ∷ []) fresh (λ text v e. port_lem v e)
      (refl, refl, refl, (omega arith, omega arith))

wait_loop_lem_example :
    Returns
      (λ _ t. (n : ℕ) × (n ≤ 15000) × Waits env n fresh t)
      (Libcoap.wait_loop env 15001 15000 fresh)
wait_loop_lem_example =
    wait_loop_lem env 15001 15000 fresh (λ l. (999, refl)) (omega arith) (omega arith)

wait_loop_spins_example : Libcoap.wait_loop broken 1000 15000 fresh ≡ none
wait_loop_spins_example = wait_loop_spins broken 1000 15000 fresh (λ l. (0, refl, refl)) refl

-- The second and last part of a body of six bytes.
abbrev told : List Libcoap.Incoming
told = Libcoap.nack Libcoap.icmp_issue ∷ Libcoap.response (some (codes "abc", 3, 6)) ∷ []

run_handlers_lem_example :
    Returns
      (λ _ t. (t.quit ≡ (false || any_ends told)) × Quiet fresh t)
      (Libcoap.run_handlers told fresh)
run_handlers_lem_example = run_handlers_lem told fresh

resolve_address_lem_example :
    Returns
      (Resolves env (codes "::1") 5683 1 fresh)
      (Libcoap.resolve_address env (codes "::1") (take 7 (decimal 5683)) 1 fresh)
resolve_address_lem_example = resolve_address_lem env (codes "::1") 5683 1 fresh (omega arith)
