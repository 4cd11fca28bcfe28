-- ===== src/EthMinimal/Keeps.antt =====
-- examples/xbd-net/modules/minerva_esp32_minimal: events, their handlers and `txtsnd` leave the
-- registry alone.
use studio.Base.{
  ℕ, Bool, Option, none, some, List, [], ◌∷◌, length, get_elem?, leb, Bytes, Returns, OnReturn,
  lift, ◌>>=◌, Log, call, ◌≡◌, refl, inl, inr, arith, Bool-cases, Option-cases,
}
use studio.EthMinimal.{
  NetdevEvent, isr, rx_complete, other, Call, driver_isr, Env, Entry, State, numof,
  isr_event_handler, dump, print_frame, recv_frame, recv, say, on_event, event_cb, cmd_txtsnd,
}
use studio.EthMinimal.Command.{Sends, Serves, cmd_txtsnd_lem}

abbrev pub Keeps : State → State → Type 0
Keeps s t = (t.devices ≡ s.devices) × (t.context ≡ s.context)

OnReturn-Returns :
    {A : Type 0} (Q R : A → State → Type 0) (r : Option (A × State))
    → ((a : A) (t : State) → Q a t → R a t)
    → Returns Q r
    → OnReturn R r
OnReturn-Returns Q R none k h = tt
OnReturn-Returns Q R (some (a, t)) k h = k a t h

module _ (env : Env) where
  dump-Keeps : (b : Bytes) (n : ℕ) (s : State) → OnReturn (λ _ t. Keeps s t) (dump b n s)
  unfolding dump
  dump-Keeps b n s = elim (Bool-cases (leb n (length b))) [
    | inl e ↦ rw e (refl, refl)
    | inr e ↦ rw e tt
  ]

  recv_frame-Keeps :
      (frame : Option Bytes) (s : State) → OnReturn (λ _ t. Keeps s t) (recv_frame env frame s)
  unfolding recv_frame print_frame
  recv_frame-Keeps none s = (refl, refl)
  recv_frame-Keeps (some frame) s = dump-Keeps _ _ _

  on_event-Keeps :
      (e : NetdevEvent) (dev : ℕ) (device : Option ℕ) (s : State)
      → OnReturn (λ _ t. Keeps s t) (on_event env e dev device s)
  unfolding on_event recv
  on_event-Keeps isr dev none s = tt
  on_event-Keeps isr dev (some index) s = (refl, refl)
  on_event-Keeps rx_complete dev device s = recv_frame-Keeps (env.received _) _
  on_event-Keeps other dev device s = (refl, refl)

  pub event-Keeps :
      (e : NetdevEvent) (dev : ℕ) (s : State) → OnReturn (λ _ t. Keeps s t) (event_cb env dev e s)
  unfolding event_cb
  event-Keeps e dev s = on_event-Keeps e dev (s.context dev) _

  run_handler :
      (dev : Option ℕ) (s : State)
      → OnReturn (λ _ t. Keeps s t) ((do d ← lift dev; say (call (driver_isr d))) s)
  run_handler none s = tt
  run_handler (some d) s = (refl, refl)

  pub handler-Keeps :
      (index : ℕ) (s : State) → OnReturn (λ _ t. Keeps s t) (isr_event_handler index s)
  unfolding isr_event_handler
  handler-Keeps index s = elim (Option-cases (get_elem? s.devices index)) [
    | inl e ↦ rw e tt
    | inr (entry, e) ↦ rw e (run_handler entry.dev s)
  ]

  Sends-Keeps :
      (dst : Option Bytes) (dev : Option ℕ) (text : Bytes) (s : State) (r : ℕ) (t : State)
      → Sends env dst dev text s r t
      → Keeps s t
  Sends-Keeps none dev text s r t h = (h.2.0, h.2.2)
  Sends-Keeps (some dst) none text s r t h = (h.2.0, h.2.2)
  Sends-Keeps (some dst) (some dev) text s r t h = (h.2.0, h.2.2)

  Serves-Keeps :
      (args : List Bytes) (s : State) (r : ℕ) (t : State) → Serves env args s r t → Keeps s t
  Serves-Keeps [] s r t h = (h.2.0, h.2.2)
  Serves-Keeps (x ∷ []) s r t h = (h.2.0, h.2.2)
  Serves-Keeps (x ∷ y ∷ []) s r t h = (h.2.0, h.2.2)
  Serves-Keeps (x ∷ y ∷ z ∷ []) s r t h = Sends-Keeps _ _ z s r t h
  Serves-Keeps (x ∷ y ∷ z ∷ w ∷ rest) s r t h = (h.2.0, h.2.2)

  pub txtsnd-Keeps :
      (cmd : Bytes) (args : List Bytes) (es : List Entry) (b : Bytes) (c : ℕ → Option ℕ)
      (h : ℕ → Bool) (l : Log Call)
      → length es ≡ numof
      → let s : State = record {
        devices = es;
        buffer = b;
        context = c;
        has_callback = h;
        log = l;
      } in
        OnReturn (λ _ t. Keeps s t) (cmd_txtsnd env (cmd ∷ args) s)
  txtsnd-Keeps cmd args [] b c h l e = absurd (omega arith)
  txtsnd-Keeps cmd args (entry ∷ x ∷ es) b c h l e = absurd (omega arith)
  txtsnd-Keeps cmd args (entry ∷ []) b c h l e =
      let s : State = record {
        devices = entry ∷ [];
        buffer = b;
        context = c;
        has_callback = h;
        log = l;
      } in
      OnReturn-Returns (Serves env args s) (λ _ t. Keeps s t) (cmd_txtsnd env (cmd ∷ args) s)
        (λ r t. Serves-Keeps args s r t) (cmd_txtsnd_lem env cmd args entry b c h l)
