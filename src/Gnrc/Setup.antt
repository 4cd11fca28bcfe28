-- ===== src/Gnrc/Setup.antt =====
-- examples/xbd-net/modules/minerva_gnrc/border_router.c: what `set_ips` does.
use studio.Base.{
  String, ℕ, Bool, true, false, not, Option, none, some, List, [], ◌∷◌, ◌++◌, if◌then◌else◌, ℤ, pos,
  negsuc, is_neg, Bytes, Prog, pure, Returns, ◌>>=◌, calls, Log, call, printf, ◌≡◌, refl, Step,
  perform,
}
use studio.Gnrc.{
  Netif, Call, get_ipv6_iid, ipv6_addr_add, nib_ft_add, change_rtr_adv_iface, Env, State,
  unspecified, ask, fail, set_inner, after_routes, set_route, set_outer, set_ips,
}

-- The calls of a plan up to the first that fails, and a status that says whether one did.
abbrev pub Follows : List (Step Call) → State → ℤ → State → Type 0
Follows steps s r t =
    (r ≡ (if (perform steps s.log).0 then pos 0 else negsuc 0))
    × (calls t.log ≡ calls (perform steps s.log).1)

-- A call that answers with a negative number on failure.
abbrev checked : (Log Call → Call) → (Log Call → ℤ) → Step Call
checked action res = record { action = action; succeeds = λ l. not (is_neg (res l)) }

-- What is left to do once the answer of a call is known.
abbrev Rest : Bool → List (Step Call) → Log Call → ℤ → State → Type 0
Rest succeeded steps l r t =
    let p = if succeeded then perform steps l else (false, l) in
    (r ≡ (if p.0 then pos 0 else negsuc 0)) × (calls t.log ≡ calls p.1)

answer_lem :
    (res : ℤ) (text : String) (k : Prog State ℤ) (steps : List (Step Call)) (l : Log Call)
    → ((t : State) → Returns (Follows steps t) (k t))
    → Returns
        (Rest (not (is_neg res)) steps l)
        ((if is_neg res then fail (printf text []) else k) (record { log = l }))
unfolding fail
answer_lem (pos n) text k steps l h = h (record { log = l })
answer_lem (negsuc n) text k steps l h = (refl, refl)

module _ (env : Env) where
  abbrev pub outer_steps : Option (Bytes × ℕ) → Netif → List (Step Call)
  outer_steps none outer = []
  outer_steps (some (text, len)) outer =
      checked (λ l. ipv6_addr_add outer (env.addr_from_str text) len) env.addr_added ∷ []

  abbrev pub route_steps : Option Bytes → Netif → List (Step Call)
  route_steps none outer = []
  route_steps (some text) outer =
      checked (λ l. nib_ft_add unspecified 0 (env.addr_from_str text) outer.pid) env.route_added
      ∷ []

  abbrev is_some : Option Bytes → Bool
  is_some none = false
  is_some (some iid) = true

  -- The prefix with an interface identifier.
  abbrev inner_addr : Option Bytes → Bytes
  inner_addr none = []
  inner_addr (some iid) = env.set_aiid (env.addr_from_str env.br_ipv6_prefix) iid

  abbrev pub inner_steps : Option Netif → List (Step Call)
  inner_steps none = []
  inner_steps (some inner) =
      record { action = λ l. get_ipv6_iid inner.pid; succeeds = λ l. is_some (env.iid l) }
      ∷ checked (λ l. ipv6_addr_add inner (inner_addr (env.iid l)) 64) env.addr_added
      ∷ []

  -- No more router advertisements on the outer interface, then the inner one.
  abbrev pub last_steps : Netif → Option Netif → List (Step Call)
  last_steps outer inner =
      record { action = λ l. change_rtr_adv_iface outer false; succeeds = λ l. true }
      ∷ inner_steps inner

  -- In order: the outer address and the default route, where they are configured, then the end of
  -- router advertisements there, and for an inner interface its identifier and its address.
  abbrev pub plan : Netif → Option Netif → List (Step Call)
  plan outer inner =
      outer_steps env.br_ipv6_addr outer
      ++ (route_steps env.br_ipv6_def_rt outer ++ last_steps outer inner)

  iid_lem :
      (found : Option Bytes) (inner : Netif) (l : Log Call)
      → Returns
          (Rest
            (is_some found)
            (checked (λ _. ipv6_addr_add inner (inner_addr found) 64) env.addr_added ∷ [])
            l)
          ((elim found as (λ _. Prog State ℤ) [
            | none ↦ fail (printf "Failed getting wireless interface iid.\n" [])
            | some iid ↦ do
              res ←
                  ask
                    (ipv6_addr_add inner
                      (env.set_aiid (env.addr_from_str env.br_ipv6_prefix) iid)
                      64)
                    env.addr_added
              if is_neg res
                  then fail (printf "Failed setting outer address.\n" [])
                  else pure (pos 0)
          ])
            (record { log = l }))
  unfolding fail
  iid_lem none inner l = (refl, refl)
  iid_lem (some iid) inner l =
      let l' = call (ipv6_addr_add inner (inner_addr (some iid)) 64) ∷ l in
      answer_lem (env.addr_added l') "Failed setting outer address.\n" (pure (pos 0)) [] l'
        (λ t. (refl, refl))

  last_lem :
      (outer : Netif) (inner : Option Netif) (s : State)
      → Returns (Follows (last_steps outer inner) s) (after_routes env outer inner s)
  unfolding after_routes set_inner
  last_lem outer none s = (refl, refl)
  last_lem outer (some inner) s = iid_lem (env.iid _) inner _

  set_route_lem :
      (def_rt : Option Bytes) (outer : Netif) (inner : Option Netif) (s : State)
      → Returns
          (Follows (route_steps def_rt outer ++ last_steps outer inner) s)
          (set_route env def_rt outer inner s)
  unfolding set_route
  set_route_lem none outer inner s = last_lem outer inner s
  set_route_lem (some text) outer inner s =
      answer_lem (env.route_added _) "Failed setting default route.\n"
        (after_routes env outer inner) (last_steps outer inner) _ (last_lem outer inner)

  set_outer_lem :
      (addr : Option (Bytes × ℕ)) (outer : Netif) (inner : Option Netif) (s : State)
      → Returns
          (Follows
            (outer_steps addr outer
              ++ (route_steps env.br_ipv6_def_rt outer ++ last_steps outer inner))
            s)
          (set_outer env addr outer inner s)
  unfolding set_outer
  set_outer_lem none outer inner s = set_route_lem env.br_ipv6_def_rt outer inner s
  set_outer_lem (some (text, len)) outer inner s =
      answer_lem (env.addr_added _) "Failed setting outer address.\n"
        (set_route env env.br_ipv6_def_rt outer inner)
        (route_steps env.br_ipv6_def_rt outer ++ last_steps outer inner) _
        (set_route_lem env.br_ipv6_def_rt outer inner)

  -- What `set_ips` must have done.
  abbrev pub Sets : Option Netif → Option Netif → State → ℤ → State → Type 0
  Sets none inner s r t = (r ≡ negsuc 0) × (calls t.log ≡ calls s.log)
  Sets (some outer) inner s r t = Follows (plan outer inner) s r t

  -- Without an outer interface `set_ips` fails with -1 and makes no call. Else it makes the calls
  -- of the plan in order, up to the first that fails: the status is 0 if none does, and -1 if one
  -- does.
  pub set_ips_lem :
      (outer inner : Option Netif) (s : State)
      → Returns (Sets outer inner s) (set_ips env outer inner s)
  unfolding set_ips fail
  set_ips_lem none inner s = (refl, refl)
  set_ips_lem (some outer) inner s = set_outer_lem env.br_ipv6_addr outer inner s
