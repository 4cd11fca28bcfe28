-- ===== src/Gcoap/Client/Blockwise/Transfer.antt =====
-- examples/xbd-net/modules/minerva_gcoap/client.c: `_resp_handler` over a whole blockwise transfer.
use studio.Base.{
  ℕ, zero, suc, ◌+◌, ◌<◌, ◌%◌, ◌^◌, Bool, true, false, ◌&&◌, some, List, [], ◌∷◌, ◌++◌, ◌==◌, Bytes,
  Prog, Returns, Returns-map, Returns-then, ◌>>◌, calls, ◌≡◌, refl, ◌∙◌, ap, arith,
}
use studio.Lwip.Sock.{Endpoint}
use studio.Gcoap.{Block, Call, req_send, Env, State}
use studio.Gcoap.Client.{empty}
use studio.Gcoap.Client.Blockwise.{Answer, resp, resp_handler}
use studio.Gcoap.Same.{SameVars}
use studio.Gcoap.Client.Blockwise.Laws.{ask, reply, resp_handler_lem}

and-false : (b : Bool) → (b && false) ≡ false
and-false true = refl
and-false false = refl

SameVars-trans : (s t u : State) → SameVars s t → SameVars t u → SameVars s u
SameVars-trans s t u h q = (q.0 ∙ h.0, q.1 ∙ h.1, q.2 ∙ h.2, q.3 ∙ h.3, q.4 ∙ h.4, q.5 ∙ h.5)

module _ (env : Env) (answer : ℕ → Answer) (size : ℕ) (remote : Endpoint) where
  abbrev pub block_at : ℕ → Bool → Block
  block_at k more = record { blknum = k; more = more; szx = size }

  -- The response with block `k`.
  abbrev pub answer_at : ℕ → Bool → Answer
  answer_at k more = record (answer k) { block2 = some (block_at k more) }

  -- The responses with the blocks from `k` on, of which `n` are followed by another.
  abbrev pub transfer : ℕ → ℕ → Prog State Unit
  transfer zero k = resp_handler env resp (answer_at k false) remote
  transfer (suc n) k = do resp_handler env resp (answer_at k true) remote; transfer n (suc k)

  -- The request for block `k + 1`, which the response with block `k` leads to.
  abbrev pub request_after : ℕ → Bool → Bytes → Call
  request_after k proxied path =
      let pdu = ask proxied path ((answer k).msg_type) (block_at (suc k) true) in
      req_send pdu (env.finish_len pdu) remote

  -- `n` requests, from that for block `k + 1` on, above the calls `l`.
  abbrev pub requests : ℕ → ℕ → Bool → Bytes → List Call → List Call
  requests zero k proxied path l = l
  requests (suc n) k proxied path l =
      requests n (suc k) proxied path (request_after k proxied path ∷ l)

  reply_more :
      (k : ℕ) (s : State)
      → empty s.last_req_path ≡ false
      → suc k < 2 ^ 32
      → reply env resp (answer_at k true) remote s ≡ request_after k s.proxied s.last_req_path ∷ []
  reply_more k s kept small =
      let wrap : (k + 1) % 2 ^ 32 ≡ suc k = omega arith in rw (kept, and-false (k == 0), wrap) refl

  -- What the responses must lead to: the requests, and no other call or change.
  abbrev pub Transfers : ℕ → ℕ → State → State → Type 0
  Transfers n k s t =
      (calls t.log ≡ requests n k s.proxied s.last_req_path (calls s.log)) × SameVars s t

  more_lem :
      (k : ℕ) (s : State)
      → empty s.last_req_path ≡ false
      → suc k < 2 ^ 32
      → Returns
          (λ _ t.
            (calls t.log ≡ request_after k s.proxied s.last_req_path ∷ calls s.log) × SameVars s t)
          (resp_handler env resp (answer_at k true) remote s)
  more_lem k s kept small =
      Returns-map _
        (λ _ t.
          (calls t.log ≡ request_after k s.proxied s.last_req_path ∷ calls s.log) × SameVars s t)
        (resp_handler env resp (answer_at k true) remote s)
        (λ _ t h. (h.0 ∙ ap (λ cs. cs ++ calls s.log) (reply_more k s kept small), h.1))
        (resp_handler_lem env resp (answer_at k true) remote s)

  Transfers-step :
      (n k : ℕ) (s t u : State)
      → (calls t.log ≡ request_after k s.proxied s.last_req_path ∷ calls s.log) × SameVars s t
      → Transfers n (suc k) t u
      → Transfers (suc n) k s u
  Transfers-step n k s t u h q = (
    q.0
        ∙ ap (λ b. requests n (suc k) b t.last_req_path (calls t.log)) h.1.2
        ∙ ap (λ path. requests n (suc k) s.proxied path (calls t.log)) h.1.5
        ∙ ap (requests n (suc k) s.proxied s.last_req_path) h.0,
    SameVars-trans s t u h.1 q.1,
  )

  -- Where the path or URI was kept, the responses with the blocks `k` to `k + n`, numbered below
  -- 2^32, of which all but the last announce another block, lead to `n` requests, for the blocks
  -- `k + 1` to `k + n` in this order, each to where the responses come from. No variable changes.
  pub transfer_lem :
      (n k : ℕ) (s : State)
      → empty s.last_req_path ≡ false
      → k + n < 2 ^ 32
      → Returns (λ _ t. Transfers n k s t) (transfer n k s)
  transfer_lem zero k s kept small = resp_handler_lem env resp (answer_at k false) remote s
  transfer_lem (suc n) k s kept small =
      Returns-then (resp_handler env resp (answer_at k true) remote)
        (λ _ t.
          (calls t.log ≡ request_after k s.proxied s.last_req_path ∷ calls s.log) × SameVars s t)
        (λ _ t. Transfers (suc n) k s t) (transfer n (suc k)) s (more_lem k s kept (omega arith))
        (λ _ t h.
          Returns-map (λ _ u. Transfers n (suc k) t u) (λ _ u. Transfers (suc n) k s u)
            (transfer n (suc k) t) (λ _ u q. Transfers-step n k s t u h q)
            (transfer_lem n (suc k) t (ap empty h.1.5 ∙ kept) (omega arith)))
