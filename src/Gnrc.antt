-- ===== src/Gnrc.antt =====
-- examples/xbd-net/modules/minerva_gnrc/border_router.c, without the parts for RPL and multihop
-- prefixes. `Env` is gnrc: what its functions answer.
pub mod Search
pub mod Setup
use studio.Base.{
  ℕ, Bool, true, false, not, ◌&&◌, Option, none, some, List, [], ◌∷◌, ◌==◌, if◌then◌else◌, ℤ, pos,
  negsuc, is_neg, Bytes, Prog, pure, gets, modify, ◌>>=◌, ◌>>◌, Event, puts, printf, call, num, str,
  Log,
}

-- A `gnrc_netif_t`: the value of its pointer, which is printed, and its pid.
pub record Netif : Type 0 where
  pub ptr : ℕ
  pub pid : ℕ

pub data Call : Type 0 where
  get_max_pdu_size : ℕ → Call
  get_ipv6_addr : ℕ → Call
  get_ipv6_iid : ℕ → Call
  ipv6_addr_add : Netif → Bytes → ℕ → Call
  nib_ft_add : Bytes → ℕ → Bytes → ℕ → Call
  change_rtr_adv_iface : Netif → Bool → Call

-- `br_ipv6_addr` and `br_ipv6_def_rt` are the macros, if they are defined. `addr_from_str` is what
-- an address holds after `ipv6_addr_from_str`. `netifs` is what `gnrc_netif_iter` goes through,
-- `max_pdu_size` the MTU of the interface with a pid, and `old_mtu` what the variable holds before
-- the first reading. `first_addr` is `addrs[0]`, as text.
pub record Env : Type 0 where
  pub netifs : List Netif
  pub max_pdu_size : ℕ → Option ℕ
  pub old_mtu : ℕ
  pub first_addr : Log Call → Bytes
  pub br_ipv6_addr : Option (Bytes × ℕ)
  pub br_ipv6_def_rt : Option Bytes
  pub br_ipv6_prefix : Bytes
  pub addr_from_str : Bytes → Bytes
  pub set_aiid : Bytes → Bytes → Bytes
  pub addr_added : Log Call → ℤ
  pub route_added : Log Call → ℤ
  pub iid : Log Call → Option Bytes

pub record State : Type 0 where
  pub log : Log Call

-- The results of the search.
pub record Found : Type 0 where
  pub outer : Option Netif
  pub inner : Option Netif

-- ETHERNET_DATA_LEN
abbrev pub ethernet_data_len : ℕ
ethernet_data_len = 1500

-- GNRC_NETIF_IPV6_ADDRS_NUMOF, of the module's Makefile
abbrev pub ipv6_addrs_numof : ℕ
ipv6_addrs_numof = 4

-- IPV6_ADDR_UNSPECIFIED
abbrev pub unspecified : Bytes
unspecified = 0 ∷ 0 ∷ 0 ∷ 0 ∷ 0 ∷ 0 ∷ 0 ∷ 0 ∷ 0 ∷ 0 ∷ 0 ∷ 0 ∷ 0 ∷ 0 ∷ 0 ∷ 0 ∷ []

abbrev pub say : Event Call → Prog State Unit
say e = modify (λ s. record s { log = e ∷ s.log })

abbrev pub ask : {A : Type 0} → Call → (Log Call → A) → Prog State A
ask c answer s = let l = call c ∷ s.log in some (answer l, record s { log = l })

-- A pointer as it is printed; NULL is 0.
abbrev pub ptr_of : Option Netif → ℕ
ptr_of none = 0
ptr_of (some netif) = netif.ptr

-- `netif != NULL`
abbrev pub is_set : Option Netif → Bool
is_set none = false
is_set (some netif) = true

-- What the variable `mtu` holds after an attempt to read it.
abbrev pub read_or : ℕ → Option ℕ → ℕ
read_or old none = old
read_or old (some mtu) = mtu

-- The body of the search, for one interface and its MTU.
unfoldable pub classify : Netif → ℕ → Found → Found
classify netif mtu f =
    if not (is_set f.outer) && (mtu == ethernet_data_len)
    then record f { outer = some netif }
    else if not (is_set f.inner) && not (mtu == ethernet_data_len)
    then record f { inner = some netif }
    else f

-- The message of a failed call, and its status.
pub fail : Event Call → Prog State ℤ
fail line = do say line; pure (negsuc 0)

module _ (env : Env) where
  print_ifce : Option Netif → Prog State Unit
  print_ifce none = say (printf "print_ifce(): ifce: %p\n" (num 0 ∷ []))
  print_ifce (some ifce) = do
    say (printf "print_ifce(): ifce: %p\n" (num ifce.ptr ∷ []))
    say (printf "  GNRC_NETIF_IPV6_ADDRS_NUMOF: %d\n" (num ipv6_addrs_numof ∷ []))
    text ← ask (get_ipv6_addr ifce.pid) env.first_addr
    say (printf "  addrs[0]: %s\n" (str text ∷ []))

  -- The loop over the interfaces; `old` is what `mtu` holds.
  search : List Netif → ℕ → Found → Prog State Found
  search [] old f = pure f
  search (netif ∷ rest) old f = do
    say (printf "@@ (found) netif: %p\n" (num netif.ptr ∷ []))
    say (call (get_max_pdu_size netif.pid))
    let mtu = read_or old (env.max_pdu_size netif.pid)
    say (printf "@@ mtu: %d (ETHERNET_DATA_LEN=%d)\n" (num mtu ∷ num ethernet_data_len ∷ []))
    let f' = classify netif mtu f
    if is_set f'.outer && is_set f'.inner then pure f' else search rest mtu f'

  report : Found → Prog State Unit
  report f = do
    say (printf "@@ (native|esp-eth|esp-wifi) outer: %p\n" (num (ptr_of f.outer) ∷ []))
    print_ifce f.outer
    say (printf "@@ (esp-now) inner: %p\n" (num (ptr_of f.inner) ∷ []))
    print_ifce f.inner

  pub find_ifces : Prog State Found
  find_ifces = do
    f ← search env.netifs env.old_mtu (record { outer = none; inner = none })
    report f
    pure f

  -- The inner address, from the prefix and the interface's identifier.
  set_inner : Option Netif → Prog State ℤ
  set_inner none = pure (pos 0)
  set_inner (some inner) = do
    found ← ask (get_ipv6_iid inner.pid) env.iid
    elim found [
      | none ↦ fail (printf "Failed getting wireless interface iid.\n" [])
      | some iid ↦ do
        let prefix = env.set_aiid (env.addr_from_str env.br_ipv6_prefix) iid
        res ← ask (ipv6_addr_add inner prefix 64) env.addr_added
        if is_neg res then fail (printf "Failed setting outer address.\n" []) else pure (pos 0)
    ]

  after_routes : Netif → Option Netif → Prog State ℤ
  after_routes outer inner = do say (call (change_rtr_adv_iface outer false)); set_inner inner

  -- The default route, if one is configured.
  set_route : Option Bytes → Netif → Option Netif → Prog State ℤ
  set_route none outer inner = after_routes outer inner
  set_route (some def_rt) outer inner = do
    res ← ask (nib_ft_add unspecified 0 (env.addr_from_str def_rt) outer.pid) env.route_added
    if is_neg res
        then fail (printf "Failed setting default route.\n" [])
        else after_routes outer inner

  -- The outer address, if one is configured.
  set_outer : Option (Bytes × ℕ) → Netif → Option Netif → Prog State ℤ
  set_outer none outer inner = set_route env.br_ipv6_def_rt outer inner
  set_outer (some (text, len)) outer inner = do
    res ← ask (ipv6_addr_add outer (env.addr_from_str text) len) env.addr_added
    if is_neg res
        then fail (printf "Failed setting outer address.\n" [])
        else set_route env.br_ipv6_def_rt outer inner

  pub set_ips : Option Netif → Option Netif → Prog State ℤ
  set_ips none inner = fail (printf "Failed getting outer gnrc interface.\n" [])
  set_ips (some outer) inner = set_outer env.br_ipv6_addr outer inner
