-- ===== src/Libcoap/Events.antt =====
-- examples/xbd-net/modules/minerva_libcoap/client-coap.c: when the handlers end the client.
use studio.Base.{
  ℕ, ◌+◌, ◌%◌, ◌^◌, Bool, true, false, ◌||◌, Option, none, some, List, [], ◌∷◌, length, ◌==◌, Bytes,
  Prog, Returns, Returns-map, Returns-then, ◌>>◌, calls, ◌≡◌, refl, ◌∙◌, ap, inl, inr, Bool-cases,
}
use studio.Libcoap.{
  Reason, too_many_retries, not_deliverable, rst, icmp_issue, bad_response, tls_failed,
  tls_layer_failed, ws_layer_failed, ws_failed, other_reason, Incoming, response, nack, State,
  message_handler, nack_handler, run_handlers,
}

-- Nothing but the log and `quit` has changed, and libcoap was not called.
abbrev pub Quiet : State → State → Type 0
Quiet s t =
    (calls t.log ≡ calls s.log)
    × (t.main_coap_context ≡ s.main_coap_context)
    × (t.optlist ≡ s.optlist)
    × (t.is_mcast ≡ s.is_mcast)
    × (t.wait_seconds ≡ s.wait_seconds)

pub Quiet-trans : (s t u : State) → Quiet s t → Quiet t u → Quiet s u
Quiet-trans s t u h q = (q.0 ∙ h.0, q.1 ∙ h.1, q.2 ∙ h.2, q.3 ∙ h.3, q.4 ∙ h.4)

-- The failures after which no answer can come.
abbrev pub gives_up : Reason → Bool
gives_up icmp_issue = false
gives_up bad_response = false
gives_up other_reason = false
gives_up too_many_retries = true
gives_up not_deliverable = true
gives_up rst = true
gives_up tls_failed = true
gives_up tls_layer_failed = true
gives_up ws_layer_failed = true
gives_up ws_failed = true

-- The data that ends the whole body, or such a failure.
abbrev pub ends : Incoming → Bool
ends (response none) = false
ends (response (some (text, offset, total))) = (length text + offset) % 2 ^ 32 == total
ends (nack reason) = gives_up reason

abbrev pub any_ends : List Incoming → Bool
any_ends [] = false
any_ends (e ∷ es) = ends e || any_ends es

or-nil : (b : Bool) → b ≡ (b || false)
or-nil true = refl
or-nil false = refl

or-true : (b : Bool) → true ≡ (b || true)
or-true true = refl
or-true false = refl

or_assoc : (a b c : Bool) → ((a || b) || c) ≡ (a || (b || c))
or_assoc true b c = refl
or_assoc false b c = refl

message_lem :
    (found : Option (Bytes × ℕ × ℕ)) (s : State)
    → Returns
        (λ _ t. (t.quit ≡ (s.quit || ends (response found))) × Quiet s t)
        (message_handler found s)
unfolding message_handler
message_lem none s = (or-nil s.quit, (refl, refl, refl, refl, refl))
message_lem (some (text, offset, total)) s =
    elim (Bool-cases ((length text + offset) % 2 ^ 32 == total)) [
      | inl e ↦ rw e (or-true s.quit, (refl, refl, refl, refl, refl))
      | inr e ↦ rw e (or-nil s.quit, (refl, refl, refl, refl, refl))
    ]

nack_lem :
    (reason : Reason) (s : State)
    → Returns (λ _ t. (t.quit ≡ (s.quit || ends (nack reason))) × Quiet s t) (nack_handler reason s)
unfolding nack_handler
nack_lem icmp_issue s = (or-nil s.quit, (refl, refl, refl, refl, refl))
nack_lem bad_response s = (or-nil s.quit, (refl, refl, refl, refl, refl))
nack_lem other_reason s = (or-nil s.quit, (refl, refl, refl, refl, refl))
nack_lem too_many_retries s = (or-true s.quit, (refl, refl, refl, refl, refl))
nack_lem not_deliverable s = (or-true s.quit, (refl, refl, refl, refl, refl))
nack_lem rst s = (or-true s.quit, (refl, refl, refl, refl, refl))
nack_lem tls_failed s = (or-true s.quit, (refl, refl, refl, refl, refl))
nack_lem tls_layer_failed s = (or-true s.quit, (refl, refl, refl, refl, refl))
nack_lem ws_layer_failed s = (or-true s.quit, (refl, refl, refl, refl, refl))
nack_lem ws_failed s = (or-true s.quit, (refl, refl, refl, refl, refl))

abbrev Told : List Incoming → State → State → Type 0
Told es s t = (t.quit ≡ (s.quit || any_ends es)) × Quiet s t

Told-step :
    (e : Incoming) (es : List Incoming) (s t u : State)
    → (t.quit ≡ (s.quit || ends e)) × Quiet s t
    → Told es t u
    → Told (e ∷ es) s u
Told-step e es s t u h q = (
  q.0 ∙ ap (λ b. b || any_ends es) h.0 ∙ or_assoc s.quit (ends e) (any_ends es),
  Quiet-trans s t u h.1 q.1,
)

told_lem :
    (m : Prog State Unit) (e : Incoming) (es : List Incoming) (s : State)
    → Returns (λ _ t. (t.quit ≡ (s.quit || ends e)) × Quiet s t) (m s)
    → ((t : State) → Returns (λ _ u. Told es t u) (run_handlers es t))
    → Returns (λ _ u. Told (e ∷ es) s u) ((do m; run_handlers es) s)
told_lem m e es s h ih =
    Returns-then m (λ _ t. (t.quit ≡ (s.quit || ends e)) × Quiet s t) (λ _ t. Told (e ∷ es) s t)
      (run_handlers es) s h
      (λ _ t h.
        Returns-map (λ _ u. Told es t u) (λ _ u. Told (e ∷ es) s u) (run_handlers es t)
          (λ _ u q. Told-step e es s t u h q) (ih t))

pub run_handlers_lem :
    (es : List Incoming) (s : State)
    → Returns (λ _ t. (t.quit ≡ (s.quit || any_ends es)) × Quiet s t) (run_handlers es s)
unfolding run_handlers
run_handlers_lem [] s = (or-nil s.quit, (refl, refl, refl, refl, refl))
run_handlers_lem (response found ∷ es) s =
    told_lem (message_handler found) (response found) es s (message_lem found s)
      (run_handlers_lem es)
run_handlers_lem (nack reason ∷ es) s =
    told_lem (nack_handler reason) (nack reason) es s (nack_lem reason s) (run_handlers_lem es)
