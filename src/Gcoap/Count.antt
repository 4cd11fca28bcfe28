-- ===== src/Gcoap/Count.antt =====
-- examples/xbd-net/modules/minerva_gcoap: what the count of requests stands for.
use studio.Base.{
  ℕ, suc, ◌+◌, ◌-◌, ◌%◌, ◌^◌, ◌≤◌, Bool, true, false, Option, none, some, [], ◌∷◌, ltb,
  if◌then◌else◌, Prog, lift, ◌>>=◌, OnReturn, OnReturn-bind, Log, call, ◌≡◌,
}
use studio.Gcoap.{Call, req_send, Env, State}

-- How many requests of a log had bytes sent.
abbrev pub sent_in : Env → Log Call → ℕ
sent_in env [] = 0
sent_in env (call (req_send pdu len remote) ∷ l) =
    if ltb 0 (env.sent (call (req_send pdu len remote) ∷ l))
    then suc (sent_in env l)
    else sent_in env l
sent_in env (e ∷ l) = sent_in env l

-- The count is `base` and the requests that were sent since `mark` had been.
abbrev pub IsCount : Env → ℕ → ℕ → State → Type 0
IsCount env base mark s =
    (s.req_count ≡ (base + (sent_in env s.log - mark)) % 2 ^ 16) × (mark ≤ sent_in env s.log)

module _ (env : Env) (base mark : ℕ) where
  -- A function that keeps the count true.
  abbrev pub Counts : {A : Type 0} → Prog State A → Type 0
  Counts m = (s : State) → IsCount env base mark s → OnReturn (λ _ t. IsCount env base mark t) (m s)

  pub lift_lem : {A : Type 0} (o : Option A) → Counts (lift o)
  lift_lem none s v = tt
  lift_lem (some a) s v = v

  pub bind_lem :
      {A B : Type 0} (m : Prog State A) (f : A → Prog State B)
      → Counts m
      → ((a : A) → Counts (f a))
      → Counts (m >>= f)
  bind_lem m f h k s v =
      OnReturn-bind m (λ _ t. IsCount env base mark t) (λ _ t. IsCount env base mark t) f s (h s v)
        (λ a t. k a t)

  pub Counts-if :
      {A : Type 0} (b : Bool) (m k : Prog State A)
      → Counts m
      → Counts k
      → Counts (if b then m else k)
  Counts-if true m k h h' = h
  Counts-if false m k h h' = h'
