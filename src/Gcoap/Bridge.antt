-- ===== src/Gcoap/Bridge.antt =====
-- examples/xbd-net/modules/minerva_xbd/gcoap.c: the requests of the Rust side, and what it is told
-- of the responses. Pointers, and the number of the memo's state, are left out of what is printed.
pub mod Laws
pub mod Request
pub mod Count
use studio.Base.{
  ℕ, suc, ◌+◌, Bool, true, false, ◌&&◌, Option, none, some, List, [], ◌∷◌, length, leb, ◌==◌,
  if◌then◌else◌, Bytes, codes, Prog, pure, lift, gets, ◌>>=◌, ◌>>◌, Event, puts, printf, call, num,
  str, ◌≡◌,
}
use studio.Gcoap.{
  Block, non, Build, req_init_code, raw_header, set_type, finish_payload, finish_none, payload, Pdu,
  async_next, async_complete, Env, State, say,
}
use studio.Gcoap.Server.{notify_observers}
use studio.Gcoap.Client.{empty, send_found}
use studio.Gcoap.Client.Blockwise.{
  MemoState, resp, resp_trunc, timeout, other_state, Answer, is_first, is_success, next_request,
  print_payload,
}

-- The packet of a message that starts a transfer.
abbrev pub first_packet : ℕ → Bytes → Bool → Pdu
first_packet method uri has_payload =
    (if has_payload then finish_payload else finish_none)
    ∷ set_type non
    ∷ req_init_code method uri
    ∷ []

-- What the Rust side is given of a response: a pointer to the payload, which is set before the packet
-- is made into another one. It is told here by the bytes there are at the end, `left`.
delivered : MemoState → Bytes → Bytes → Option Bytes
delivered timeout data_in left = none
delivered other_state data_in left = none
delivered resp data_in left = if empty data_in then none else some left
delivered resp_trunc data_in left = if empty data_in then none else some left

module _ (env : Env) where
  -- `_send`; the handler and its context are handed on.
  unfoldable pub send_to : Pdu → ℕ → Bytes → Prog State ℕ
  send_to pdu len addr = do
    found ← gets (λ s. env.name2ep s.log addr env.old_remote)
    send_found env pdu len found

  -- The header, by what the Rust side has copied, and its length.
  unfoldable pub header_for : Bytes → ℕ → ℕ → Bytes → Bool → Prog State (Pdu × ℕ)
  header_for [] idx method uri has_payload = do
    id ← gets (λ s. env.id_of s.log)
    say (printf "@@ sending msg (ID=%u)\n" (num id ∷ []))
    pure (first_packet method uri has_payload, env.finish_len (first_packet method uri has_payload))
  header_for (c ∷ cs) idx method uri has_payload = do
    say (printf "@@ sending non-first msg (idx=%u)\n" (num idx ∷ []))
    pure (raw_header (c ∷ cs) ∷ [], suc (length cs))

  -- `memcpy(buf + hdr_len, payload, payload_len)`, into a buffer whose size is not looked at.
  unfoldable pub copy_payload : Pdu → ℕ → Bytes → Option Pdu
  copy_payload pdu hdr_len [] = some pdu
  copy_payload pdu hdr_len (c ∷ cs) =
      if leb (hdr_len + suc (length cs)) env.pdu_buf_size
      then some (payload (c ∷ cs) ∷ pdu)
      else none

  -- From the copy of the payload to the end.
  unfoldable pub send_payload : Pdu → ℕ → Bytes → Bytes → Prog State Unit
  send_payload pdu hdr_len text addr = do
    pdu' ← lift (copy_payload pdu hdr_len text)
    bytes_sent ← send_to pdu' (hdr_len + length text) addr
    if bytes_sent == 0 then say (puts "gcoap_cli: msg send failed") else notify_observers env

  unfoldable pub xbd_gcoap_req_send : Bytes → Bytes → ℕ → Bytes → Bool → ℕ → Prog State Unit
  xbd_gcoap_req_send addr uri method text blockwise idx = do
    copied ← gets (λ s. if blockwise then env.hdr_copy s.log idx else [])
    (pdu, hdr_len) ← header_for copied idx method uri (if empty text then false else true)
    say (
        printf "@@ xbd_gcoap_req_send(): addr: %s, uri: %s hdr_len: %u\n"
          (str addr ∷ str uri ∷ num hdr_len ∷ []))
    if blockwise
        then say (printf "@@ debug - blockwise_state_index: %u\n" (num idx ∷ []))
        else pure tt
    say (printf "@@ payload: %p payload_len: %d\n" (num (length text) ∷ []))
    send_payload pdu hdr_len text addr

  print_response : Answer → Prog State Unit
  print_response r = do
    if is_first r.block2 then say (puts "--- blockwise start ---") else pure tt
    say (
        printf "gcoap: response %s, code %1u.%02u" (
          str (if is_success r.code_class then codes "Success" else codes "Error")
          ∷ num r.code_class
          ∷ num r.code_detail
          ∷ []))
    print_payload env r

  -- `_resp_handler`
  print_memo : MemoState → Answer → Prog State Unit
  print_memo timeout r = say (printf "gcoap: timeout for msg ID %02u\n" (num r.id ∷ []))
  print_memo resp_trunc r = do
    say (printf "gcoap: warning, incomplete response; continuing with the truncated payload\n" [])
    print_response r
  print_memo resp r = print_response r
  print_memo other_state r = say (printf "gcoap: error in response\n" [])

  -- `_resp_handler_blockwise_async`, if the response has a block. The request for the next block is
  -- made in the packet of the response; the result is what then stands where its payload stood.
  blockwise_async : Option Block → Answer → Prog State Bytes
  blockwise_async none r = pure r.data_in
  blockwise_async (some block) r = do
    idx ← gets (λ s. env.state_index s.log)
    last_addr ← gets (λ s. env.addr_ptr s.log idx)
    last_uri ← gets (λ s. env.uri_ptr s.log idx)
    if block.more
        then if block.blknum == 0 && empty last_uri
          then (do say (puts "Path too long; can't complete blockwise"); pure r.data_in)
          else (do
            let pdu = next_request false last_uri r.msg_type block
            say (call (async_next idx last_addr last_uri pdu (env.finish_len pdu)))
            pure (env.overwritten pdu r.data_in))
        else do
          say (puts "--- blockwise complete ---")
          say (call (async_complete idx))
          pure r.data_in

  -- The results are the memo's state, and the payload as the caller reads it.
  pub xbd_resp_handler : MemoState → Answer → Prog State (MemoState × Option Bytes)
  xbd_resp_handler memo r = do
    print_memo memo r
    say (printf "@@ memo->state: %d\n" [])
    left ← blockwise_async r.block2 r
    pure (memo, delivered memo r.data_in left)
