-- ===== src/Libcoap/Resolve.antt =====
-- examples/xbd-net/modules/minerva_libcoap/client-coap.c: which address is asked for.
use studio.Base.{
  ℕ, ◌<◌, ◌^◌, Bool, Option, none, some, ◌∷◌, take, take-all, u16, Bytes, pure, ◌>>◌, Returns, call,
  ◌≡◌, refl, ap, ◌∙◌, arith,
}
use std.Path.{subst}
use studio.Libc.{atoi}
use studio.Libc.Decimal.{decimal, atoi-decimal, length-decimal}
use studio.Libcoap.{
  resolve_address_info, free_address_info, Env, State, say, found_address, resolve_address,
}

module _ (env : Env) where
  abbrev mcast_of : Option Bytes → Bool → Bool
  mcast_of none old = old
  mcast_of (some dst) old = env.multicast dst

  abbrev answered : Bytes → ℕ → ℕ → State → Option Bytes
  answered host port hints s = env.resolved (call (resolve_address_info host port hints) ∷ s.log)

  -- What a resolution must have done.
  abbrev pub Resolves : Bytes → ℕ → ℕ → State → Option Bytes → State → Type 0
  Resolves host port hints s r t =
      (r ≡ answered host port hints s)
      × (t.log ≡ call free_address_info ∷ call (resolve_address_info host port hints) ∷ s.log)
      × (t.is_mcast ≡ mcast_of (answered host port hints s) s.is_mcast)
      × (t.main_coap_context ≡ s.main_coap_context)
      × (t.optlist ≡ s.optlist)
      × (t.quit ≡ s.quit)
      × (t.wait_seconds ≡ s.wait_seconds)

  service_lem : (port : ℕ) → port < 2 ^ 16 → u16 (atoi (take 7 (decimal port))) ≡ port
  service_lem port h =
      ap (λ b. u16 (atoi b))
        (take-all 7 (decimal port) (omega (arith, length-decimal port (omega arith))))
      ∙ ap u16 (atoi-decimal port h)
      ∙ omega arith

  -- What is done with the answer.
  abbrev Keeps : Option Bytes → State → Option Bytes → State → Type 0
  Keeps found s r t =
      (r ≡ found)
      × (t.log ≡ call free_address_info ∷ s.log)
      × (t.is_mcast ≡ mcast_of found s.is_mcast)
      × (t.main_coap_context ≡ s.main_coap_context)
      × (t.optlist ≡ s.optlist)
      × (t.quit ≡ s.quit)
      × (t.wait_seconds ≡ s.wait_seconds)

  found_lem :
      (found : Option Bytes) (s : State)
      → Returns
          (Keeps found s)
          ((do found_address env found; say (call free_address_info); pure found) s)
  unfolding found_address
  found_lem none s = (refl, refl, refl, refl, refl, refl, refl)
  found_lem (some dst) s = (refl, refl, refl, refl, refl, refl, refl)

  pub resolves_lem :
      (host service : Bytes) (hints : ℕ) (s : State)
      → Returns
          (Resolves host (u16 (atoi service)) hints s)
          (resolve_address env host service hints s)
  unfolding resolve_address
  resolves_lem host service hints s =
      found_lem (answered host (u16 (atoi service)) hints s) (record s { log = _ ∷ s.log })

  -- For a port of 16 bits, which goes through the text in `portbuf`, libcoap is asked for this host
  -- at this very port, and what it answered is freed, whether or not it found an address, which is
  -- the result. `is_mcast` tells whether the address found is one of a group, and keeps its value if
  -- there is none. Nothing else changes.
  pub resolve_address_lem :
      (host : Bytes) (port hints : ℕ) (s : State)
      → port < 2 ^ 16
      → Returns
          (Resolves host port hints s)
          (resolve_address env host (take 7 (decimal port)) hints s)
  resolve_address_lem host port hints s h =
      subst
        (λ p.
          Returns (Resolves host p hints s)
            (resolve_address env host (take 7 (decimal port)) hints s))
        (service_lem port h) (resolves_lem host (take 7 (decimal port)) hints s)
