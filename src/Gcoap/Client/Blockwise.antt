-- ===== src/Gcoap/Client/Blockwise.antt =====
-- examples/xbd-net/modules/minerva_gcoap/client.c: `_resp_handler`, the client's side of a blockwise transfer.
pub mod Laws
pub mod Transfer
use studio.Base.{
  ℕ, zero, suc, ◌+◌, ◌-◌, ◌/◌, ◌%◌, ◌^◌, Bool, true, false, ◌&&◌, Option, none, some, List, [], ◌∷◌,
  ◌++◌, length, get_elem?, take, ltb, leb, ◌==◌, if◌then◌else◌, Bytes, codes, str_eq, Prog, pure,
  lift, gets, modify, ◌>>=◌, ◌>>◌, Event, puts, printf, od_hex_dump, call, num, str, Log, ◌≡◌,
  String,
}
use studio.Lwip.Sock.{Family, unspec, inet, inet6, Endpoint}
use studio.Gcoap.{
  Block, MsgType, con, non, ack, rst, Method, ping, get, post, put, Build, req_init, set_type,
  add_format_text, add_proxy_uri, add_block2, finish_payload, finish_none, payload, Pdu, Call,
  req_send, Env, State, say, ask,
}
use studio.Gcoap.Server.{server_init, server_state, notify_observers}
use studio.Libc.Decimal.{decimal}
use studio.Gcoap.Client.{kept_path, empty, default_port, with_port, send}

-- `memo->state`
pub data MemoState : Type 0 where
  resp resp_trunc timeout other_state : MemoState

-- What the handler reads of a response. The format is that of text or of links if `is_text`.
pub record Answer : Type 0 where
  pub id : ℕ
  pub code_class : ℕ
  pub code_detail : ℕ
  pub msg_type : MsgType
  pub is_text : Bool
  pub data_in : Bytes
  pub block2 : Option Block

is_ack : MsgType → Bool
is_ack con = false
is_ack non = false
is_ack ack = true
is_ack rst = false

unfoldable pub is_first : Option Block → Bool
is_first none = false
is_first (some block) = block.blknum == 0

-- COAP_CLASS_SUCCESS, and the two classes of failures
abbrev pub is_success : ℕ → Bool
is_success code_class = code_class == 2

abbrev is_failure : ℕ → Bool
is_failure code_class = if code_class == 4 then true else code_class == 5

-- `block.blknum++` on 32 bits
abbrev pub next_block : Block → Block
next_block block = record block { blknum = (block.blknum + 1) % 2 ^ 32 }

-- The type is set to CON behind an ACK.
confirm : MsgType → Pdu → Pdu
unfolding is_ack
confirm msg_type pdu = if is_ack msg_type then set_type con ∷ pdu else pdu

-- The request for the next block.
pub next_request : Bool → Bytes → MsgType → Block → Pdu
unfolding confirm
next_request true path msg_type block =
    finish_none
    ∷ add_proxy_uri path
    ∷ add_block2 (next_block block)
    ∷ confirm msg_type (req_init get none ∷ [])
next_request false path msg_type block =
    finish_none ∷ add_block2 (next_block block) ∷ confirm msg_type (req_init get (some path) ∷ [])

module _ (env : Env) where
  pub print_payload : Answer → Prog State Unit
  print_payload r =
      if empty r.data_in
      then say (printf ", empty payload\n" [])
      else if (if r.is_text then true else is_failure r.code_class)
      then say (
          printf ", %u bytes\n%.*s\n"
            (num (length r.data_in) ∷ num (length r.data_in) ∷ str r.data_in ∷ []))
      else do say (printf ", %u bytes\n" (num (length r.data_in) ∷ [])); say (od_hex_dump r.data_in)

  request_next : Answer → Block → Endpoint → Prog State Unit
  request_next r block remote = do
    path ← gets (λ s. s.last_req_path)
    if block.blknum == 0 && empty path
        then say (puts "Path too long; can't complete blockwise")
        else do
          proxied ← gets (λ s. s.proxied)
          let pdu = next_request proxied path r.msg_type block
          say (call (req_send pdu (env.finish_len pdu) remote))

  continue_blockwise : Option Block → Answer → Endpoint → Prog State Unit
  continue_blockwise none r remote = pure tt
  continue_blockwise (some block) r remote =
      if block.more then request_next r block remote else say (puts "--- blockwise complete ---")

  handle_response : Answer → Endpoint → Prog State Unit
  handle_response r remote = do
    if is_first r.block2 then say (puts "--- blockwise start ---") else pure tt
    say (
        printf "gcoap: response %s, code %1u.%02u" (
          str (if is_success r.code_class then codes "Success" else codes "Error")
          ∷ num r.code_class
          ∷ num r.code_detail
          ∷ []))
    print_payload r
    continue_blockwise r.block2 r remote

  pub resp_handler : MemoState → Answer → Endpoint → Prog State Unit
  resp_handler timeout r remote = say (printf "gcoap: timeout for msg ID %02u\n" (num r.id ∷ []))
  resp_handler resp_trunc r remote = do
    say (printf "gcoap: warning, incomplete response; continuing with the truncated payload\n" [])
    handle_response r remote
  resp_handler resp r remote = handle_response r remote
  resp_handler other_state r remote = say (printf "gcoap: error in response\n" [])
