-- ===== src/Libcoap/Wait.antt =====
-- examples/xbd-net/modules/minerva_libcoap/client-coap.c: the loop that waits for the response.
use studio.Base.{
  ℕ, zero, suc, ◌-◌, ◌≤◌, ◌<◌, true, false, not, ◌||◌, Option, none, some, List, ◌∷◌, leb, ℤ, pos,
  negsuc, Prog, pure, Returns, Returns-map, Returns-bind, Returns-then, lt→ltb, ◌>>=◌, calls, Log,
  call, puts, ◌≡◌, refl, ◌∙◌, ap, inl, inr, Bool-cases, arith,
}
use studio.Libcoap.{Call, io_process, Env, State, warn, run_handlers, elapsed, process, wait_loop}
use studio.Libcoap.Events.{Quiet, any_ends, run_handlers_lem}

module _ (env : Env) where
  -- What `coap_io_process` promises here: a call does not fail, and takes a millisecond or more.
  abbrev pub Progress : Type 0
  Progress = (l : Log Call) → (k : ℕ) × ((env.io l).1 ≡ pos (suc k))

  -- Some number of calls of `coap_io_process`.
  abbrev pub processed : ℕ → List Call → List Call
  processed zero cs = cs
  processed (suc n) cs = processed n (io_process ∷ cs)

  -- The loop has made `n` calls, and changed nothing but the log and `quit`.
  abbrev pub Waits : ℕ → State → State → Type 0
  Waits n s t =
      (calls t.log ≡ processed n (calls s.log))
      × (t.main_coap_context ≡ s.main_coap_context)
      × (t.optlist ≡ s.optlist)
      × (t.is_mcast ≡ s.is_mcast)
      × (t.wait_seconds ≡ s.wait_seconds)

  abbrev at_call : State → Log Call
  at_call s = call io_process ∷ s.log

  process_lem :
      (s : State)
      → Returns
          (λ r t. (r ≡ (env.io (at_call s)).1) × Quiet (record s { log = at_call s }) t)
          (process env s)
  unfolding process
  process_lem s =
      let r = env.io (at_call s) in
      Returns-then (run_handlers r.0) (λ _ t. Quiet (record s { log = at_call s }) t)
        (λ (x : ℤ) (t : State). (x ≡ r.1) × Quiet (record s { log = at_call s }) t) (pure r.1)
        (record s { log = at_call s })
        (Returns-map _ (λ _ t. Quiet (record s { log = at_call s }) t)
          (run_handlers r.0 (record s { log = at_call s })) (λ _ t h. h.1)
          (run_handlers_lem r.0 (record s { log = at_call s })))
        (λ _ t h. (refl, h))

  -- At most `w` calls.
  abbrev pub Ends : ℕ → State → State → Type 0
  Ends w s t = (n : ℕ) × (n ≤ w) × Waits n s t

  abbrev EndsBelow : ℕ → State → State → Type 0
  EndsBelow w s t = (n : ℕ) × (n < w) × Waits n s t

  stays : (s : State) → Waits 0 s s
  stays s = (refl, refl, refl, refl, refl)

  round_lem :
      (fuel w k : ℕ) (t : State)
      → 0 < w
      → ((v : ℕ) → v < w → 0 < v → Returns (λ _ x. Ends v t x) (wait_loop env fuel v t))
      → Returns
          (λ _ x. EndsBelow w t x)
          ((elim (elapsed (pos (suc k)) w) as (λ _. Prog State Unit) [
            | none ↦ warn (puts "timeout")
            | some rest ↦ wait_loop env fuel rest
          ])
            t)
  unfolding elapsed
  round_lem fuel w k t p h = elim (Bool-cases (leb w (suc k))) [
    | inl e ↦ rw (lt→ltb 0 w p, e) (0, omega arith, (refl, refl, refl, refl, refl))
    | inr e ↦
        let more : suc k < w = ground arith in
        rw (lt→ltb 0 w p, e)
          (Returns-map (λ _ x. Ends (w - suc k) t x) (λ _ x. EndsBelow w t x)
            (wait_loop env fuel (w - suc k) t) (λ _ x (n, q, r). (n, omega arith, r))
            (h (w - suc k) (omega arith) (omega arith)))
  ]

  Waits-step :
      (w : ℕ) (s t x : State)
      → Quiet (record s { log = at_call s }) t
      → EndsBelow w t x
      → Ends w s x
  Waits-step w s t x q (n, m, r) =
      (suc n, omega arith, (r.0 ∙ ap (processed n) q.0, r.1 ∙ q.1, r.2 ∙ q.2, r.3 ∙ q.3, r.4 ∙ q.4))

  -- If no call of `coap_io_process` fails or takes no time, the loop ends: for a waiting time of `w`
  -- milliseconds, which is not 0, after at most `w` calls, whatever the handlers are told. It calls
  -- nothing else, and changes no variable but `quit`.
  pub wait_loop_lem :
      (fuel w : ℕ) (s : State)
      → Progress
      → 0 < w
      → w < fuel
      → Returns (λ _ t. (n : ℕ) × (n ≤ w) × Waits n s t) (wait_loop env fuel w s)
  unfolding wait_loop
  wait_loop_lem zero w s progress p h = absurd (omega arith)
  wait_loop_lem (suc fuel) w s progress p h = elim (Bool-cases (not s.quit || s.is_mcast)) [
    | inr e ↦ rw e (0, omega arith, stays s)
    | inl e ↦ rw e (
        Returns-bind (process env)
          (λ r t. (r ≡ (env.io (at_call s)).1) × Quiet (record s { log = at_call s }) t)
          (λ _ t. Ends w s t)
          (λ result. elim (elapsed result w) as (λ _. Prog State Unit) [
            | none ↦ warn (puts "timeout")
            | some rest ↦ wait_loop env fuel rest
          ])
          s (process_lem s)
          (λ r t q.
            let (k, f) = progress (at_call s) in
            rw (q.0 ∙ f) (
              Returns-map (λ _ x. EndsBelow w t x) (λ _ x. Ends w s x) _
                (λ _ x b. Waits-step w s t x q.1 b)
                (round_lem fuel w k t p
                  (λ v below pv. wait_loop_lem fuel v t progress pv (omega arith))))))
  ]

  -- Every call of `coap_io_process` fails, and no handler is told an end.
  abbrev pub Fails : Type 0
  Fails = (l : Log Call) → (n : ℕ) × ((env.io l).1 ≡ negsuc n) × (any_ends (env.io l).0 ≡ false)

  bind_none :
      (m : Prog State ℤ) (Q : ℤ → State → Type 0) (f : ℤ → Prog State Unit) (s : State)
      → Returns Q (m s)
      → ((a : ℤ) (t : State) → Q a t → f a t ≡ none)
      → (m >>= f) s ≡ none
  bind_none m Q f s = go (m s)
    where
      go :
          (r : Option (ℤ × State))
          → Returns Q r
          → ((a : ℤ) (t : State) → Q a t → f a t ≡ none)
          → elim r as (λ _. Option (Unit × State)) [ none ↦ none | some (a, t) ↦ f a t ] ≡ none
      go none h k = refl
      go (some (a, t)) h k = k a t h

  process_quit :
      (s : State)
      → Returns
          (λ r t.
            (r ≡ (env.io (at_call s)).1) × (t.quit ≡ (s.quit || any_ends (env.io (at_call s)).0)))
          (process env s)
  unfolding process
  process_quit s =
      let r = env.io (at_call s) in
      Returns-then (run_handlers r.0) (λ _ t. t.quit ≡ (s.quit || any_ends r.0))
        (λ (x : ℤ) (t : State). (x ≡ r.1) × (t.quit ≡ (s.quit || any_ends r.0))) (pure r.1)
        (record s { log = at_call s })
        (Returns-map _ (λ _ t. t.quit ≡ (s.quit || any_ends r.0))
          (run_handlers r.0 (record s { log = at_call s })) (λ _ t h. h.0)
          (run_handlers_lem r.0 (record s { log = at_call s })))
        (λ _ t h. (refl, h))

  -- The loop ignores failures: if every call of `coap_io_process` fails and no end is told, it does
  -- not end with any fuel and for any waiting time.
  pub wait_loop_spins :
      (fuel w : ℕ) (s : State) → Fails → s.quit ≡ false → wait_loop env fuel w s ≡ none
  unfolding wait_loop elapsed
  wait_loop_spins zero w s fails q = refl
  wait_loop_spins (suc fuel) w s fails q =
      let e : (not s.quit || s.is_mcast) ≡ true = ap (λ b. not b || s.is_mcast) q in
      rw e (
        bind_none (process env)
          (λ r t.
            (r ≡ (env.io (at_call s)).1) × (t.quit ≡ (s.quit || any_ends (env.io (at_call s)).0)))
          (λ result. elim (elapsed result w) as (λ _. Prog State Unit) [
            | none ↦ warn (puts "timeout")
            | some rest ↦ wait_loop env fuel rest
          ])
          s (process_quit s)
          (λ r t h.
            let (n, f, g) = fails (at_call s) in
            rw (h.0 ∙ f) (
              wait_loop_spins fuel w t fails
                (h.1 ∙ ap (λ b. s.quit || b) g ∙ ap (λ b. b || false) q))))
