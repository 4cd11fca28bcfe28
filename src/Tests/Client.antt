-- ===== src/Tests/Client.antt =====
-- minerva_gcoap's client at a concrete system.
use studio.Base.{
  true, false, none, some, List, [], ◌∷◌, ◌++◌, length, calls, pos, negsuc, Bytes, codes, Returns,
  ◌≡◌, refl, arith, take,
}
use studio.Lwip.Sock.{inet6, Endpoint}
use studio.Gcoap
use studio.Gcoap.Client.{kept_path}
use studio.Gcoap.Client as Client
use studio.Gcoap.Client.Config.{cmd_proxy}
use studio.Gcoap.Client.Config.Laws.{Configures, proxy_args, cmd_proxy_lem}
use studio.Gcoap.Client.Blockwise.{Answer, resp, resp_handler}
use studio.Gcoap.Same.{SameVars}
use studio.Gcoap.Client.Blockwise.Laws.{reply, resp_handler_lem}
use studio.Gcoap.Client.Blockwise.Transfer.{Transfers, transfer, transfer_lem}
use studio.Gcoap.Client.Command.{gcoap_cli_cmd, request_method, path_text}
use studio.Gcoap.Client.Command.Laws.{Serves, parse, gcoap_cli_cmd_lem}
use studio.Gcoap.Client.Command.Message.{Issues}
use studio.Gcoap.Client.Command.Send.{proxy_uri_of, request_direct_lem, request_proxied_lem}

abbrev pub peer : Endpoint
peer = record { family = inet6; addr = 0xfe ∷ 0x80 ∷ []; port = 0 }

abbrev pub env : Gcoap.Env
env = record {
  module_gcoap_dtls = false;
  gcoap_port = 5683;
  gcoaps_port = 5684;
  credman_exist = negsuc 1;
  old_remote = peer;
  unset_remote = peer;
  finish_len = λ pdu. 7;
  room = λ pdu. 32;
  response_len = λ code. 4;
  fmt_u16_dec = λ n. codes "1";
  inet_ntop = λ ep. codes "fe80::1";
  name2ep = λ l name old. (true, peer);
  op_state = λ l. 0;
  dsm_available = λ l. 1;
  dsm_maximum = λ l. 1;
  id_of = λ l. 1;
  observers = λ l. Gcoap.obs_ok;
  credential = λ l. negsuc 2;
  dtls_credential = λ l. pos 0;
  sent = λ l. 10;
  pdu_buf_size = 128;
  state_index = λ l. 2;
  addr_ptr = λ l idx. codes "[fe80::1]";
  uri_ptr = λ l idx. codes "/large";
  hdr_copy = λ l idx. [];
  overwritten = λ pdu data_in. codes "0" ++ data_in;
}

abbrev pub direct : Gcoap.State
direct = record {
  server_init_done = false;
  req_count = 65535;
  proxied = false;
  proxy_remote = peer;
  proxy_uri = [];
  last_req_path = codes "/a";
  log = [];
}

abbrev by_proxy : Gcoap.State
by_proxy = record (direct) { proxied = true }

abbrev packet : Gcoap.Pdu
packet = Gcoap.finish_none ∷ Gcoap.req_init Gcoap.get (some (codes "/a")) ∷ []

abbrev pub block : Gcoap.Block
block = record { blknum = 0; more = true; szx = 2 }

abbrev pub response : Answer
response = record {
  id = 1;
  code_class = 2;
  code_detail = 5;
  msg_type = Gcoap.ack;
  is_text = true;
  data_in = codes "abc";
  block2 = some block;
}

resp_handler_lem_example :
    Returns
      (λ _ t. (calls t.log ≡ reply env resp response peer direct ++ []) × SameVars direct t)
      (resp_handler env resp response peer direct)
resp_handler_lem_example = resp_handler_lem env resp response peer direct

transfer_lem_example :
    Returns
      (λ _ t. Transfers env (λ _. response) 2 peer 3 0 direct t)
      (transfer env (λ _. response) 2 peer 3 0 direct)
transfer_lem_example = transfer_lem env (λ _. response) 2 peer 3 0 direct refl (omega arith)

abbrev line : List Bytes
line = codes "put" ∷ codes "-c" ∷ codes "[fe80::1]" ∷ codes "/cli/stats" ∷ codes "0" ∷ []

gcoap_cli_cmd_lem_example :
    Serves env
      (codes "coap" ∷ line)
      (parse line)
      direct
      (gcoap_cli_cmd env (codes "coap" ∷ line) direct)
gcoap_cli_cmd_lem_example = gcoap_cli_cmd_lem env (codes "coap") line direct

request_direct_lem_example :
    Returns
      (Issues env Gcoap.con
        (codes "[fe80::1]")
        (codes "0")
        (path_text (some (codes "/cli/stats")))
        (length (path_text (some (codes "/cli/stats"))))
        (Gcoap.req_init Gcoap.put (some (codes "/cli/stats")) ∷ [])
        direct)
      (request_method env
        (codes "coap" ∷ line)
        Gcoap.put
        Gcoap.con
        (codes "[fe80::1]")
        (some (codes "/cli/stats"))
        (codes "0")
        direct)
unfolding Client.Command.bad_path
request_direct_lem_example =
    request_direct_lem env (codes "coap" ∷ line) Gcoap.put Gcoap.con (codes "[fe80::1]")
      (some (codes "/cli/stats")) (codes "0") direct refl refl (λ n. omega arith)

abbrev uri : Bytes
uri = proxy_uri_of env peer (codes "/cli/stats")

request_proxied_lem_example :
    Returns
      (Issues env Gcoap.con
        (codes "[fe80::1]")
        []
        (take 63 uri)
        (length uri)
        (Gcoap.req_init Gcoap.get none ∷ [])
        (record (by_proxy) { proxy_uri = take 63 uri }))
      (request_method env
        (codes "coap" ∷ line)
        Gcoap.get
        Gcoap.con
        (codes "[fe80::1]")
        (some (codes "/cli/stats"))
        []
        by_proxy)
unfolding Client.Command.bad_path
request_proxied_lem_example =
    request_proxied_lem env (codes "coap" ∷ line) Gcoap.get Gcoap.con (codes "[fe80::1]")
      (codes "/cli/stats") [] by_proxy peer refl refl refl (λ n. omega arith)

abbrev far : Bytes
far = codes "/a/path/of/many/segments/so/that/the/uri/has/more/than/63/bytes"

cmd_proxy_lem_example :
    Returns
      (Configures env (proxy_args (codes "set" ∷ codes "[fe80::2]" ∷ [])) direct)
      (cmd_proxy env (codes "coap" ∷ codes "proxy" ∷ codes "set" ∷ codes "[fe80::2]" ∷ []) direct)
cmd_proxy_lem_example =
    cmd_proxy_lem env (codes "coap") (codes "proxy") (codes "set" ∷ codes "[fe80::2]" ∷ []) direct
