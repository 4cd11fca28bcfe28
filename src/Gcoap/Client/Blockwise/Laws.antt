-- ===== src/Gcoap/Client/Blockwise/Laws.antt =====
-- examples/xbd-net/modules/minerva_gcoap/client.c: which request `_resp_handler` sends.
use studio.Base.{
  Bool, true, false, ◌&&◌, Option, none, some, List, [], ◌∷◌, ◌++◌, ◌==◌, if◌then◌else◌, Bytes,
  Returns, Returns-map, Returns-then, ◌>>◌, calls, ◌≡◌, refl, ◌∙◌, ap, inl, inr, arith, puts,
  Bool-cases, ◌+◌, ◌%◌, ◌^◌,
}
use studio.Lwip.Sock.{Endpoint}
use studio.Gcoap.{
  Block, Call, req_send, Env, State, say, MsgType, con, non, ack, rst, Pdu, get, set_type,
  add_proxy_uri, add_block2, finish_none, req_init,
}
use studio.Gcoap.Client.{empty}
use studio.Gcoap.Client.Blockwise.{
  MemoState, resp, resp_trunc, timeout, other_state, Answer, is_first, next_request, print_payload,
  request_next, continue_blockwise, handle_response, resp_handler, confirm, is_ack,
}
use studio.Gcoap.Same.{SameVars}

-- A request behind an ACK is made confirmable.
abbrev pub typed : MsgType → Pdu → Pdu
typed ack pdu = set_type con ∷ pdu
typed con pdu = pdu
typed non pdu = pdu
typed rst pdu = pdu

-- The request for a block: a GET of the path, or of the URI by a proxy.
abbrev pub ask : Bool → Bytes → MsgType → Block → Pdu
ask true path t block =
    finish_none ∷ add_proxy_uri path ∷ add_block2 block ∷ typed t (req_init get none ∷ [])
ask false path t block = finish_none ∷ add_block2 block ∷ typed t (req_init get (some path) ∷ [])

-- The request for the block behind `block`.
abbrev pub wanted : Bool → Bytes → MsgType → Block → Pdu
wanted proxied path t block =
    ask proxied path t
      (record { blknum = (block.blknum + 1) % 2 ^ 32; more = block.more; szx = block.szx })

pub next_request-wanted :
    (proxied : Bool) (path : Bytes) (t : MsgType) (block : Block)
    → next_request proxied path t block ≡ wanted proxied path t block
unfolding next_request confirm is_ack
next_request-wanted true path ack block = refl
next_request-wanted true path con block = refl
next_request-wanted true path non block = refl
next_request-wanted true path rst block = refl
next_request-wanted false path ack block = refl
next_request-wanted false path con block = refl
next_request-wanted false path non block = refl
next_request-wanted false path rst block = refl

module _ (env : Env) where
  abbrev pub next_asked : Block → Answer → Endpoint → Bool → Bytes → List Call
  next_asked block r remote proxied path =
      if block.blknum == 0 && empty path
      then []
      else (let pdu = wanted proxied path r.msg_type block in
          req_send pdu (env.finish_len pdu) remote ∷ [])

  -- A block is answered by the request for the next, unless it is the last, or it is the first and
  -- the path was too long to be kept.
  abbrev pub asked : Option Block → Answer → Endpoint → Bool → Bytes → List Call
  asked none r remote proxied path = []
  asked (some block) r remote proxied path =
      if block.more then next_asked block r remote proxied path else []

  -- The requests that a response leads to.
  abbrev pub reply : MemoState → Answer → Endpoint → State → List Call
  reply timeout r remote s = []
  reply other_state r remote s = []
  reply resp r remote s = asked r.block2 r remote s.proxied s.last_req_path
  reply resp_trunc r remote s = asked r.block2 r remote s.proxied s.last_req_path

  abbrev Asks : List Call → State → State → Type 0
  Asks cs s t = (calls t.log ≡ cs ++ calls s.log) × SameVars s t

  request_next_lem :
      (r : Answer) (block : Block) (remote : Endpoint) (s : State)
      → Returns
          (λ _ t. Asks (next_asked block r remote s.proxied s.last_req_path) s t)
          (request_next env r block remote s)
  unfolding request_next
  request_next_lem r block remote s =
      rw (← next_request-wanted s.proxied s.last_req_path r.msg_type block)
        (elim (Bool-cases (block.blknum == 0 && empty s.last_req_path)) [
          | inl e ↦ rw e (refl, (refl, refl, refl, refl, refl, refl))
          | inr e ↦ rw e (refl, (refl, refl, refl, refl, refl, refl))
        ])

  more_lem :
      (more : Bool) (block : Block) (r : Answer) (remote : Endpoint) (s : State)
      → Returns
          (λ _ t.
            Asks (if more then next_asked block r remote s.proxied s.last_req_path else []) s t)
          ((if more
              then request_next env r block remote
              else say (puts "--- blockwise complete ---"))
            s)
  more_lem true block r remote s = request_next_lem r block remote s
  more_lem false block r remote s = (refl, (refl, refl, refl, refl, refl, refl))

  continue_lem :
      (found : Option Block) (r : Answer) (remote : Endpoint) (s : State)
      → Returns
          (λ _ t. Asks (asked found r remote s.proxied s.last_req_path) s t)
          (continue_blockwise env found r remote s)
  unfolding continue_blockwise
  continue_lem none r remote s = (refl, (refl, refl, refl, refl, refl, refl))
  continue_lem (some block) r remote s = more_lem block.more block r remote s

  pub print_lem :
      (r : Answer) (s : State)
      → Returns (λ _ t. (calls t.log ≡ calls s.log) × SameVars s t) (print_payload env r s)
  unfolding print_payload
  print_lem r s = ground arith

  Asks-same :
      (r : Answer) (remote : Endpoint) (s t u : State)
      → (calls t.log ≡ calls s.log) × SameVars s t
      → Asks (asked r.block2 r remote t.proxied t.last_req_path) t u
      → Asks (asked r.block2 r remote s.proxied s.last_req_path) s u
  Asks-same r remote s t u (c, (i, n, p, e, w, l)) (h, (i', n', p', e', w', l')) = (
    h
        ∙ ap (λ x. asked r.block2 r remote x t.last_req_path ++ calls t.log) p
        ∙ ap (λ x. asked r.block2 r remote s.proxied x ++ calls t.log) l
        ∙ ap (λ x. asked r.block2 r remote s.proxied s.last_req_path ++ x) c,
    (i' ∙ i, n' ∙ n, p' ∙ p, e' ∙ e, w' ∙ w, l' ∙ l),
  )

  body_lem :
      (r : Answer) (remote : Endpoint) (s : State)
      → Returns
          (λ _ t. Asks (asked r.block2 r remote s.proxied s.last_req_path) s t)
          ((print_payload env r >> continue_blockwise env r.block2 r remote) s)
  body_lem r remote s =
      Returns-then (print_payload env r) (λ _ t. (calls t.log ≡ calls s.log) × SameVars s t)
        (λ _ t. Asks (asked r.block2 r remote s.proxied s.last_req_path) s t)
        (continue_blockwise env r.block2 r remote) s (print_lem r s)
        (λ _ t q.
          Returns-map (λ _ u. Asks (asked r.block2 r remote t.proxied t.last_req_path) t u)
            (λ _ u. Asks (asked r.block2 r remote s.proxied s.last_req_path) s u)
            (continue_blockwise env r.block2 r remote t) (λ _ u h. Asks-same r remote s t u q h)
            (continue_lem r.block2 r remote t))

  handle_lem :
      (r : Answer) (remote : Endpoint) (s : State)
      → Returns
          (λ _ t. Asks (asked r.block2 r remote s.proxied s.last_req_path) s t)
          (handle_response env r remote s)
  unfolding handle_response
  handle_lem r remote s = elim (Bool-cases (is_first r.block2)) [
    | inl e ↦ rw (e, Returns) (body_lem r remote _)
    | inr e ↦ rw (e, Returns) (body_lem r remote _)
  ]

  -- The handler returns, and none of the client's variables changes. A timeout and an error send
  -- nothing. A response, truncated or not, with a block that is not the last, sends one request to
  -- where it came from: for the next block, confirmable behind an ACK, with the path or, with a
  -- proxy, the URI that was kept. It sends none if there is no block, if the block is the last, or
  -- if it is the first and no path was kept.
  pub resp_handler_lem :
      (memo : MemoState) (r : Answer) (remote : Endpoint) (s : State)
      → Returns
          (λ _ t. (calls t.log ≡ reply memo r remote s ++ calls s.log) × SameVars s t)
          (resp_handler env memo r remote s)
  unfolding resp_handler
  resp_handler_lem timeout r remote s = (refl, (refl, refl, refl, refl, refl, refl))
  resp_handler_lem other_state r remote s = (refl, (refl, refl, refl, refl, refl, refl))
  resp_handler_lem resp r remote s = handle_lem r remote s
  resp_handler_lem resp_trunc r remote s = handle_lem r remote (record s { log = _ ∷ s.log })
