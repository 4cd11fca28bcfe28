-- ===== src/Tests/Server.antt =====
-- minerva_gcoap's server at a concrete system.
use studio.Base.{
  ◌++◌, ℕ, ◌+◌, ◌<◌, ◌/◌, ◌%◌, ◌^◌, true, false, some, [], ◌∷◌, replicate, length-replicate, pos, negsuc,
  Bytes, codes, Returns, ◌≡◌, refl, arith,
}
use studio.Libc.{is_digit, digits_value}
use studio.Lwip.Sock.{inet6, Endpoint}
use studio.Gcoap
use studio.Gcoap.Server
use studio.Gcoap.Server.Link.{Kept, encode_link_lem}
use studio.Gcoap.Server.Stats.{
  Answers, WritesDecimal, text_answer, stats_handler_lem, stats_put-get,
}
use studio.Gcoap.Server.Start.{Inits, server_init_lem}

abbrev peer : Endpoint
peer = record { family = inet6; addr = 0xfe ∷ 0x80 ∷ []; port = 0 }

-- Five digits, with zeros in front.
abbrev digit_char : ℕ → ℕ
digit_char n = b'0' + n % 10

abbrev five_digits : ℕ → Bytes
five_digits n =
    digit_char (n / 10 / 10 / 10 / 10)
    ∷ digit_char (n / 10 / 10 / 10)
    ∷ digit_char (n / 10 / 10)
    ∷ digit_char (n / 10)
    ∷ digit_char n
    ∷ []

digit_char_lem : (n : ℕ) → is_digit (digit_char n) ≡ true
digit_char_lem n = ground arith

digits_value-five : (n : ℕ) → n < 2 ^ 16 → digits_value 0 (five_digits n) ≡ n
unfolding digits_value
digits_value-five n h =
    rw
      (
        digit_char_lem (n / 10 / 10 / 10 / 10),
        digit_char_lem (n / 10 / 10 / 10),
        digit_char_lem (n / 10 / 10),
        digit_char_lem (n / 10),
        digit_char_lem n,
      )
      (omega arith)

abbrev env : Gcoap.Env
env = record {
  module_gcoap_dtls = true;
  gcoap_port = 5683;
  gcoaps_port = 5684;
  credman_exist = negsuc 1;
  old_remote = peer;
  unset_remote = peer;
  finish_len = λ pdu. 7;
  room = λ pdu. 32;
  response_len = λ code. 4;
  fmt_u16_dec = five_digits;
  inet_ntop = λ ep. codes "fe80::1";
  name2ep = λ l name old. (true, peer);
  op_state = λ l. 0;
  dsm_available = λ l. 1;
  dsm_maximum = λ l. 1;
  id_of = λ l. 1;
  observers = λ l. Gcoap.obs_ok;
  credential = λ l. negsuc 2;
  dtls_credential = λ l. pos 0;
  sent = λ l. 10;
  pdu_buf_size = 128;
  state_index = λ l. 2;
  addr_ptr = λ l idx. codes "[fe80::1]";
  uri_ptr = λ l idx. codes "/large";
  hdr_copy = λ l idx. [];
  overwritten = λ pdu data_in. codes "0" ++ data_in;
}

five_digits-WritesDecimal : WritesDecimal env
five_digits-WritesDecimal n h = (
  digit_char (n / 10 / 10 / 10 / 10),
  digit_char (n / 10 / 10 / 10)
      ∷ digit_char (n / 10 / 10)
      ∷ digit_char (n / 10)
      ∷ digit_char n
      ∷ [],
  refl,
  (
    digit_char_lem (n / 10 / 10 / 10 / 10),
    (
      digit_char_lem (n / 10 / 10 / 10),
      (digit_char_lem (n / 10 / 10), (digit_char_lem (n / 10), (digit_char_lem n, tt))),
    ),
  ),
  digits_value-five n h,
  omega arith,
)

abbrev state : Gcoap.State
state = record {
  server_init_done = false;
  req_count = 12;
  proxied = false;
  proxy_remote = peer;
  proxy_uri = [];
  last_req_path = [];
  log = [];
}

encode_link_lem_example :
    Kept 3 32 (replicate 32 0) (Server.encode_link (pos 3) 0 32 (some (replicate 32 0)))
encode_link_lem_example =
    encode_link_lem 3 0 32 (replicate 32 0) (omega arith) (omega arith) (omega arith)
      (omega (arith, length-replicate {A = ℕ} 32 0))

stats_handler_lem_example :
    Returns
      (Answers env Server.coap_put (codes "77") state)
      (Server.stats_handler env Server.coap_put (codes "77") state)
stats_handler_lem_example = stats_handler_lem env Server.coap_put (codes "77") state (omega arith)

stats_put-get_example :
    Returns
      (λ _ t.
        Returns (λ r _. r ≡ text_answer env 77) (Server.stats_handler env Server.coap_get [] t))
      (Server.stats_handler env Server.coap_put (five_digits 77) state)
stats_put-get_example =
    stats_put-get env 77 state (omega arith) five_digits-WritesDecimal (omega arith)

server_init_lem_example :
    Returns
      (λ r t. (t.server_init_done ≡ true) × Inits env false state r t)
      (Server.server_init env state)
server_init_lem_example = server_init_lem env state

credential_refused : Server.refused env (negsuc 2) ≡ true
unfolding Server.refused
credential_refused = refl
