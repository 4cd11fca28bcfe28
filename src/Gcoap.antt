-- ===== src/Gcoap.antt =====
-- examples/xbd-net/modules/minerva_gcoap: what its server and its client share. gcoap, nanocoap and
-- the sockets are `Env`: what their functions answer, given all that was done before.
pub mod Server
pub mod Count
pub mod Same
pub mod Client
pub mod Bridge
pub mod Reach
use studio.Base.{ℕ, Bool, Option, List, ◌∷◌, ℤ, some, Bytes, Prog, modify, Event, call, Log}
use studio.Lwip.Sock.{Family, Endpoint}

-- `coap_block1_t`, as far as the client reads and writes it.
pub record Block : Type 0 where
  pub blknum : ℕ
  pub more : Bool
  pub szx : ℕ

pub data MsgType : Type 0 where
  con non ack rst : MsgType

-- The methods of the client; `ping` has the code 0.
pub data Method : Type 0 where
  ping get post put : Method

pub data Code : Type 0 where
  content changed bad_request internal_server_error : Code

-- What has been asked of gcoap for a packet. A path is `none` where NULL is given.
pub data Build : Type 0 where
  req_init : Method → Option Bytes → Build
  req_init_code : ℕ → Bytes → Build
  raw_header : Bytes → Build
  resp_init : Code → Build
  obs_init : Build
  set_type : MsgType → Build
  add_format_text : Build
  add_proxy_uri : Bytes → Build
  add_block2 : Block → Build
  finish_payload finish_none : Build
  payload : Bytes → Build

-- A packet is what was asked for it, newest first.
abbrev pub Pdu : Type 0
Pdu = List Build

pub data Call : Type 0 where
  credman_add add_credential register_listener : Call
  obs_send : Pdu → ℕ → Call
  req_send : Pdu → ℕ → Endpoint → Call
  async_next : ℕ → Bytes → Bytes → Pdu → ℕ → Call
  async_complete : ℕ → Call

pub data ObsInit : Type 0 where
  obs_ok obs_unused obs_err : ObsInit

-- The last six fields are for the bridge to Rust: `CONFIG_GCOAP_PDU_BUF_SIZE`, and what the Rust side
-- keeps of the blockwise transfers, with the bytes that `xbd_blockwise_hdr_copy` copies.
-- `overwritten` is what stands where a payload stood, once the packet that it came in was made into
-- another one.
-- `finish_len` is the length that `coap_opt_finish` returns for a packet and `room` the
-- `payload_len` that it leaves. `name2ep` has whether the name was found, and what the endpoint
-- holds afterwards, given what it held before.
pub record Env : Type 0 where
  pub module_gcoap_dtls : Bool
  pub gcoap_port : ℕ
  pub gcoaps_port : ℕ
  pub credman_exist : ℤ
  pub old_remote : Endpoint
  pub unset_remote : Endpoint
  pub finish_len : Pdu → ℕ
  pub room : Pdu → ℕ
  pub response_len : Code → ℕ
  pub fmt_u16_dec : ℕ → Bytes
  pub inet_ntop : Endpoint → Bytes
  pub name2ep : Log Call → Bytes → Endpoint → Bool × Endpoint
  pub op_state : Log Call → ℕ
  pub dsm_available : Log Call → ℕ
  pub dsm_maximum : Log Call → ℕ
  pub id_of : Log Call → ℕ
  pub observers : Log Call → ObsInit
  pub credential : Log Call → ℤ
  pub dtls_credential : Log Call → ℤ
  pub sent : Log Call → ℕ
  pub pdu_buf_size : ℕ
  pub state_index : Log Call → ℕ
  pub addr_ptr : Log Call → ℕ → Bytes
  pub uri_ptr : Log Call → ℕ → Bytes
  pub hdr_copy : Log Call → ℕ → Bytes
  pub overwritten : Pdu → Bytes → Bytes

-- The static variables of server.c and client.c that the code reads, and the log. The two texts
-- stand for the arrays of 64 bytes that hold them, up to their NUL.
pub record State : Type 0 where
  pub server_init_done : Bool
  pub req_count : ℕ
  pub proxied : Bool
  pub proxy_remote : Endpoint
  pub proxy_uri : Bytes
  pub last_req_path : Bytes
  pub log : Log Call

abbrev pub say : Event Call → Prog State Unit
say e = modify (λ s. record s { log = e ∷ s.log })

-- A call whose answer the code reads.
abbrev pub ask : {A : Type 0} → Call → (Log Call → A) → Prog State A
ask c answer s = let l = call c ∷ s.log in some (answer l, record s { log = l })
