-- ===== src/Gcoap/Bridge/Laws.antt =====
-- examples/xbd-net/modules/minerva_xbd/gcoap.c: what is sent, and what the Rust side is told.
use studio.Base.{
  Bool, true, false, ◌&&◌, Option, none, some, List, [], ◌∷◌, ◌++◌, ◌==◌, if◌then◌else◌, Bytes,
  pure, Returns, Returns-map, Returns-then, Returns-bind, ◌>>=◌, ◌>>◌, calls, ◌≡◌, refl, ◌∙◌, ap, inl, inr, call, puts,
  printf, Log, Bool-cases,
}
use studio.Gcoap.{Block, Call, async_next, async_complete, Env, State, say}
use studio.Gcoap.Client.{empty}
use studio.Gcoap.Client.Blockwise.{
  MemoState, resp, resp_trunc, timeout, other_state, Answer, is_first, next_request, print_payload,
}
use studio.Gcoap.Same.{SameVars, SameVars-trans}
use studio.Gcoap.Client.Blockwise.Laws.{wanted, next_request-wanted, print_lem}
use studio.Gcoap.Bridge.{delivered, print_response, print_memo, blockwise_async, xbd_resp_handler}

-- The payload that is handed on: for a response, truncated or not, that has one, what is left of it.
abbrev pub handed : MemoState → Bytes → Bytes → Option Bytes
handed timeout data_in left = none
handed other_state data_in left = none
handed resp [] left = none
handed resp (c ∷ cs) left = some left
handed resp_trunc [] left = none
handed resp_trunc (c ∷ cs) left = some left

delivered-handed :
    (memo : MemoState) (data_in left : Bytes) → delivered memo data_in left ≡ handed memo data_in left
unfolding delivered
delivered-handed timeout data_in left = refl
delivered-handed other_state data_in left = refl
delivered-handed resp [] left = refl
delivered-handed resp (c ∷ cs) left = refl
delivered-handed resp_trunc [] left = refl
delivered-handed resp_trunc (c ∷ cs) left = refl

module _ (env : Env) where
  abbrev Quiet : State → State → Type 0
  Quiet s t = (calls t.log ≡ calls s.log) × SameVars s t

  -- What the Rust side is told of a block, with the log at that time.
  abbrev pub told : Option Block → Answer → Log Call → List Call
  told none r l = []
  told (some block) r l =
      if block.more
      then if block.blknum == 0 && empty (env.uri_ptr l (env.state_index l))
        then []
        else (let pdu = wanted false (env.uri_ptr l (env.state_index l)) r.msg_type block in
            async_next (env.state_index l) (env.addr_ptr l (env.state_index l))
              (env.uri_ptr l (env.state_index l)) pdu (env.finish_len pdu)
            ∷ [])
      else async_complete (env.state_index l) ∷ []

  -- What is left of the payload: the request for the next block overwrites it.
  abbrev pub left_of : Option Block → Answer → Log Call → Bytes
  left_of none r l = r.data_in
  left_of (some block) r l =
      if block.more
      then if block.blknum == 0 && empty (env.uri_ptr l (env.state_index l))
        then r.data_in
        else env.overwritten (wanted false (env.uri_ptr l (env.state_index l)) r.msg_type block)
          r.data_in
      else r.data_in

  quiet : (s : State) → Quiet s s
  quiet s = (refl, (refl, refl, refl, refl, refl, refl))

  print_response_lem :
      (r : Answer) (s : State) → Returns (λ _ t. Quiet s t) (print_response env r s)
  unfolding print_response
  print_response_lem r s = elim (Bool-cases (is_first r.block2)) [
    | inl e ↦
        rw (e, Returns)
          (Returns-map _ (λ _ t. Quiet s t) (print_payload env r _) (λ _ t h. h)
            (print_lem env r _))
    | inr e ↦
        rw (e, Returns)
          (Returns-map _ (λ _ t. Quiet s t) (print_payload env r _) (λ _ t h. h)
            (print_lem env r _))
  ]

  print_memo_lem :
      (memo : MemoState) (r : Answer) (s : State)
      → Returns (λ _ t. Quiet s t) (print_memo env memo r s)
  unfolding print_memo
  print_memo_lem timeout r s = quiet s
  print_memo_lem other_state r s = quiet s
  print_memo_lem resp r s = print_response_lem r s
  print_memo_lem resp_trunc r s = print_response_lem r (record s { log = _ ∷ s.log })

  abbrev Tells : List Call → State → State → Type 0
  Tells cs s t = (calls t.log ≡ cs ++ calls s.log) × SameVars s t

  next_lem :
      (stop : Bool) (cs : Call) (kept lost : Bytes) (s : State)
      → Returns
          (λ left t.
            (left ≡ (if stop then kept else lost)) × Tells (if stop then [] else cs ∷ []) s t)
          ((if stop
              then (do say (puts "Path too long; can't complete blockwise"); pure kept)
              else do say (call cs); pure lost)
            s)
  next_lem true cs kept lost s = (refl, quiet s)
  next_lem false cs kept lost s = (refl, (refl, (refl, refl, refl, refl, refl, refl)))

  more_lem :
      (more : Bool) (block : Block) (r : Answer) (s : State)
      → let idx = env.state_index s.log in
        let uri = env.uri_ptr s.log idx in
        let pdu = next_request false uri r.msg_type block in
        let next = async_next idx (env.addr_ptr s.log idx) uri pdu (env.finish_len pdu) in
        Returns
          (λ left t.
            (left ≡ (
              if more
              then if block.blknum == 0 && empty uri
                then r.data_in
                else env.overwritten pdu r.data_in
              else r.data_in))
            × Tells
                (if more
                  then if block.blknum == 0 && empty uri then [] else next ∷ []
                  else async_complete idx ∷ [])
                s
                t)
          ((if more
              then if block.blknum == 0 && empty uri
                then (do say (puts "Path too long; can't complete blockwise"); pure r.data_in)
                else (do say (call next); pure (env.overwritten pdu r.data_in))
              else do
                say (puts "--- blockwise complete ---")
                say (call (async_complete idx))
                pure r.data_in)
            s)
  more_lem true block r s =
      next_lem (block.blknum == 0 && empty (env.uri_ptr s.log (env.state_index s.log))) _ _ _ s
  more_lem false block r s = (refl, (refl, (refl, refl, refl, refl, refl, refl)))

  async_lem :
      (found : Option Block) (r : Answer) (s : State)
      → Returns
          (λ left t. (left ≡ left_of found r s.log) × Tells (told found r s.log) s t)
          (blockwise_async env found r s)
  unfolding blockwise_async
  async_lem none r s = (refl, quiet s)
  async_lem (some block) r s =
      rw (← next_request-wanted false (env.uri_ptr s.log (env.state_index s.log)) r.msg_type block)
        (more_lem block.more block r s)

  -- The results and the calls of the handler; `l` is the log when the Rust side is asked.
  abbrev pub Handles : MemoState → Answer → State → MemoState × Option Bytes → State → Type 0
  Handles memo r s out t =
      (l : Log Call) × (calls l ≡ calls s.log)
      × (out ≡ (memo, handed memo r.data_in (left_of r.block2 r l)))
      × (calls t.log ≡ told r.block2 r l ++ calls s.log)
      × SameVars s t

  pub xbd_resp_handler_lem :
      (memo : MemoState) (r : Answer) (s : State)
      → Returns (Handles memo r s) (xbd_resp_handler env memo r s)
  unfolding xbd_resp_handler
  xbd_resp_handler_lem memo r s =
      Returns-then (print_memo env memo r) (λ _ t. Quiet s t) (Handles memo r s)
        (do
          say (printf "@@ memo->state: %d\n" [])
          left ← blockwise_async env r.block2 r
          pure (memo, delivered memo r.data_in left))
        s (print_memo_lem memo r s)
        (λ _ t q.
          let t' = record t { log = printf "@@ memo->state: %d\n" [] ∷ t.log } in
          Returns-bind (blockwise_async env r.block2 r)
            (λ left u. (left ≡ left_of r.block2 r t'.log) × Tells (told r.block2 r t'.log) t' u)
            (Handles memo r s) (λ left. pure (memo, delivered memo r.data_in left)) t'
            (async_lem r.block2 r t')
            (λ left u h. (
              t'.log,
              q.0,
              ap (λ d. (memo, d))
                (delivered-handed memo r.data_in left ∙ ap (handed memo r.data_in) h.0),
              h.1.0 ∙ ap (λ x. told r.block2 r t'.log ++ x) q.0,
              SameVars-trans s t u q.1 h.1.1,
            )))
