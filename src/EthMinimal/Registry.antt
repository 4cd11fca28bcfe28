-- ===== src/EthMinimal/Registry.antt =====
-- examples/xbd-net/modules/minerva_esp32_minimal/netdev_eth_minimal.c: the interrupt of a device
-- reaches its driver, in every state that registrations, events and `txtsnd` reach.
use studio.Base.{
  ℕ, zero, suc, ◌<◌, true, none, some, List, [], ◌∷◌, length, get_elem?, set, ltb, ◌==◌,
  if◌then◌else◌, Bytes, Returns, OnReturn, calls, ◌≡◌, refl, sym, ◌∙◌, ap, inl, inr, arith,
  Bool-cases,
}
use studio.EthMinimal.{
  NetdevEvent, isr, driver_isr, event_post, Env, Entry, State, numof, update,
  netdev_register_signal, isr_event_handler, on_event, event_cb, cmd_txtsnd,
}
use studio.EthMinimal.Keeps.{Keeps, event-Keeps, handler-Keeps, txtsnd-Keeps}

-- The entry of a registered device.
abbrev entry_of : ℕ → Entry
entry_of d = record { dev = some d; has_handler = true }

-- The registry has its size, and a device whose context points to a place is the one there.
pub record IsValid (s : State) : Type 0 where
  pub sized : length s.devices ≡ numof
  pub known : (d i : ℕ) → s.context d ≡ some i → get_elem? s.devices i ≡ some (entry_of d)

get_elem?-set :
    (es : List Entry) (i j : ℕ) (e : Entry)
    → i < length es
    → get_elem? (set es i e) j ≡ (if j == i then some e else get_elem? es j)
get_elem?-set [] i j e h = absurd (omega arith)
get_elem?-set (x ∷ es) zero zero e h = refl
get_elem?-set (x ∷ es) zero (suc j) e h = ground arith
get_elem?-set (x ∷ es) (suc i) zero e h = ground arith
get_elem?-set (x ∷ es) (suc i) (suc j) e h = ground (arith, get_elem?-set es i j e)

length-set : (es : List Entry) (i : ℕ) (e : Entry) → length (set es i e) ≡ length es
length-set [] i e = refl
length-set (x ∷ es) zero e = refl
length-set (x ∷ es) (suc i) e = ap suc (length-set es i e)

module _ (env : Env) where
  -- A place is given to one device only.
  pub data Step (s : State) (t : State) : Type 0 where
    registers :
        (dev type index : ℕ)
        → ((d : ℕ) → s.context d ≡ some index → d ≡ dev)
        → netdev_register_signal dev type index s ≡ some (tt, t)
        → Step s t
    event : (dev : ℕ) (e : NetdevEvent) → event_cb env dev e s ≡ some (tt, t) → Step s t
    handled : (index : ℕ) → isr_event_handler index s ≡ some (tt, t) → Step s t
    txtsnd :
        (cmd : Bytes) (args : List Bytes) (r : ℕ)
        → cmd_txtsnd env (cmd ∷ args) s ≡ some (r, t)
        → Step s t

  pub data Reach (s : State) : State → Type 0 where
    here : Reach s s
    next : {t u : State} → Reach s t → Step t u → Reach s u

  Keeps-IsValid : (s t : State) → Keeps s t → IsValid s → IsValid t
  Keeps-IsValid s t k v = record {
    sized = ap length k.0 ∙ v.sized;
    known = λ d i e. ap (λ es. get_elem? es i) k.0 ∙ v.known d i (ap (λ c. c d) (sym k.1) ∙ e);
  }

  -- A valid state in which every device has the place that it had.
  abbrev Holds : State → State → Type 0
  Holds s t = IsValid t × ((d i : ℕ) → s.context d ≡ some i → t.context d ≡ some i)

  Keeps-Holds : (s t : State) → Keeps s t → IsValid s → Holds s t
  Keeps-Holds s t k v = (Keeps-IsValid s t k v, λ d i e. ap (λ c. c d) k.1 ∙ e)

  place_lem :
      (es : List Entry) (i : ℕ) (e : Entry) → length es ≡ numof → get_elem? es i ≡ some e → i ≡ 0
  place_lem [] i e n h = absurd (omega arith)
  place_lem (x ∷ es) zero e n h = refl
  place_lem (x ∷ []) (suc i) e n h = absurd (cc)
  place_lem (x ∷ y ∷ es) (suc i) e n h = absurd (omega arith)

  registered-known :
      (dev index : ℕ) (s : State)
      → ((d : ℕ) → s.context d ≡ some index → d ≡ dev)
      → IsValid s
      → index < length s.devices
      → (d i : ℕ) → update s.context dev (some index) d ≡ some i
      → get_elem? (set s.devices index (entry_of dev)) i ≡ some (entry_of d)
  registered-known dev index s own v small d i e = elim (Bool-cases (d == dev)) [
    | inl f ↦ ground (arith, get_elem?-set s.devices index i (entry_of dev) small)
    | inr f ↦
        let old : s.context d ≡ some i = rw f at e in
        ground (arith, get_elem?-set s.devices index i (entry_of dev) small, v.known d i old, own d)
  ]

  registered-stays :
      (dev index : ℕ) (s : State)
      → IsValid s
      → index < length s.devices
      → (d i : ℕ) → s.context d ≡ some i
      → update s.context dev (some index) d ≡ some i
  registered-stays dev index s v small d i e = elim (Bool-cases (d == dev)) [
    | inl f ↦
        let z = place_lem s.devices i (entry_of d) v.sized (v.known d i e) in
        rw f (ap some (omega (arith, v.sized)))
    | inr f ↦ rw f e
  ]

  registers_lem :
      (dev type index : ℕ) (s : State)
      → ((d : ℕ) → s.context d ≡ some index → d ≡ dev)
      → IsValid s
      → OnReturn (λ _ t. Holds s t) (netdev_register_signal dev type index s)
  unfolding netdev_register_signal
  registers_lem dev type index s own v = elim (Bool-cases (ltb numof index)) [
    | inl e ↦ rw e (v, λ d i h. h)
    | inr e ↦ elim (Bool-cases (ltb index (length s.devices))) [
      | inl f ↦
          let small : index < length s.devices = ground arith in
          rw (e, f)
            (
              record {
                sized = length-set s.devices index (entry_of dev) ∙ v.sized;
                known = registered-known dev index s own v small;
              },
              registered-stays dev index s v small,
            )
      | inr f ↦ rw (e, f) tt
    ]
  ]

  Step-Holds : {s t : State} → Step s t → IsValid s → Holds s t
  Step-Holds {s} {t} (registers dev type index own ran) v =
      rw ran at (registers_lem dev type index s own v)
  Step-Holds {s} {t} (event dev e ran) v = Keeps-Holds s t (rw ran at (event-Keeps env e dev s)) v
  Step-Holds {s} {t} (handled index ran) v =
      Keeps-Holds s t (rw ran at (handler-Keeps env index s)) v
  Step-Holds {s} {t} (txtsnd cmd args r ran) v =
      Keeps-Holds s t
        (rw ran at
          (txtsnd-Keeps env cmd args s.devices s.buffer s.context s.has_callback s.log v.sized))
        v

  Reach-Holds : {s t : State} → IsValid s → Reach s t → Holds s t
  Reach-Holds v here = (v, λ d i e. e)
  Reach-Holds v (next r st) =
      let h = Reach-Holds v r in let k = Step-Holds st h.0 in (k.0, λ d i e. k.1 d i (h.1 d i e))

  posts_lem :
      (d i : ℕ) (s : State)
      → s.context d ≡ some i
      → Returns (λ _ t. calls t.log ≡ event_post i ∷ calls s.log) (event_cb env d isr s)
  unfolding event_cb on_event
  posts_lem d i s e = rw e refl

  handles_lem :
      (d i : ℕ) (s : State)
      → get_elem? s.devices i ≡ some (entry_of d)
      → Returns (λ _ t. calls t.log ≡ driver_isr d ∷ calls s.log) (isr_event_handler i s)
  unfolding isr_event_handler
  handles_lem d i s e = rw e refl

  -- From a valid registry, in which no place is given to two devices: where a device is registered
  -- its interrupt posts the event of its place, and the handler of that event, in any state that is
  -- reached later, calls the interrupt handler of the driver of this device, and no other.
  pub Reach-serves :
      {s t u : State} (d i : ℕ)
      → IsValid s
      → Reach s t
      → t.context d ≡ some i
      → Reach t u
      → Returns (λ _ t'. calls t'.log ≡ event_post i ∷ calls t.log) (event_cb env d isr t)
        × Returns (λ _ u'. calls u'.log ≡ driver_isr d ∷ calls u.log) (isr_event_handler i u)
  Reach-serves {s} {t} {u} d i v r e r' =
      let k = Reach-Holds (Reach-Holds v r).0 r' in
      (posts_lem d i t e, handles_lem d i u (k.0.known d i (k.1 d i e)))

  -- A registration under the number of places, which the guard lets through, writes behind the array.
  pub register_overruns :
      (dev type : ℕ) (s : State) → IsValid s → netdev_register_signal dev type numof s ≡ none
  unfolding netdev_register_signal
  register_overruns dev type s v = rw (v.sized) refl
