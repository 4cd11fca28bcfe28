-- ===== src/Gnrc/Search.antt =====
-- examples/xbd-net/modules/minerva_gnrc/border_router.c: what `find_ifces` finds.
use studio.Base.{
  Made, Made-none, Made-one, Made-trans, calls, ℕ, Bool, true, false, not, ◌&&◌, Option, none, some,
  List, [], ◌∷◌, ◌==◌, if◌then◌else◌, Returns, Returns-map, Returns-bind, Returns-then, ◌>>◌, ◌≡◌,
  refl, inl, inr, arith, Bool-cases, pure,
}
use studio.Gnrc.{
  Call, get_max_pdu_size, get_ipv6_addr, get_ipv6_iid, Netif, Env, State, Found, is_set, read_or,
  classify, print_ifce, search, report, find_ifces,
}

module _ (env : Env) where
  -- The interfaces with the MTU that each is taken to have: one that cannot be read counts as that
  -- of the interface before.
  abbrev pub measured : ℕ → List Netif → List (Netif × ℕ)
  measured old [] = []
  measured old (netif ∷ rest) =
      (netif, read_or old (env.max_pdu_size netif.pid))
      ∷ measured (read_or old (env.max_pdu_size netif.pid)) rest

-- The first interface whose MTU passes a test.
abbrev pub first : (ℕ → Bool) → List (Netif × ℕ) → Option Netif
first p [] = none
first p ((netif, mtu) ∷ rest) = if p mtu then some netif else first p rest

abbrev pub is_ethernet : ℕ → Bool
is_ethernet mtu = mtu == 1500

abbrev pub is_other : ℕ → Bool
is_other mtu = not (mtu == 1500)

-- What is already there stays.
abbrev or_else : Option Netif → Option Netif → Option Netif
or_else none o = o
or_else (some netif) o = some netif

abbrev Finds : Found → List (Netif × ℕ) → Found → Type 0
Finds f l g =
    (g.outer ≡ or_else f.outer (first is_ethernet l))
    × (g.inner ≡ or_else f.inner (first is_other l))

classify_lem :
    (netif : Netif) (mtu : ℕ) (o i : Option Netif) (l : List (Netif × ℕ)) (g : Found)
    → Finds (classify netif mtu (record { outer = o; inner = i })) l g
    → Finds (record { outer = o; inner = i }) ((netif, mtu) ∷ l) g
unfolding classify
classify_lem netif mtu none none l g h = ground arith
classify_lem netif mtu (some a) none l g h = ground arith
classify_lem netif mtu none (some b) l g h = ground arith
classify_lem netif mtu (some a) (some b) l g h = h

Finds-nil :
    (o i : Option Netif)
    → Finds (record { outer = o; inner = i }) [] (record { outer = o; inner = i })
Finds-nil none none = (refl, refl)
Finds-nil none (some b) = (refl, refl)
Finds-nil (some a) none = (refl, refl)
Finds-nil (some a) (some b) = (refl, refl)

-- With both in place the rest of the interfaces does not count.
Finds-full :
    (o i : Option Netif) (l : List (Netif × ℕ))
    → (is_set o && is_set i) ≡ true
    → Finds (record { outer = o; inner = i }) l (record { outer = o; inner = i })
Finds-full none none l h = cc
Finds-full none (some b) l h = cc
Finds-full (some a) none l h = cc
Finds-full (some a) (some b) l h = (refl, refl)

-- The calls that read an option.
abbrev pub is_read : Call → Bool
is_read (get_max_pdu_size pid) = true
is_read (get_ipv6_addr pid) = true
is_read (get_ipv6_iid pid) = true
is_read _ = false

abbrev pub OnlyReads : State → State → Type 0
OnlyReads s t = Made is_read (calls s.log) (calls t.log)

module _ (env : Env) where
  search_lem :
      (ns : List Netif) (old : ℕ) (o i : Option Netif) (s : State)
      → Returns
          (λ g t. Finds (record { outer = o; inner = i }) (measured env old ns) g × OnlyReads s t)
          (search env ns old (record { outer = o; inner = i }) s)
  unfolding search
  search_lem [] old o i s = (Finds-nil o i, Made-none is_read (calls s.log))
  search_lem (netif ∷ rest) old o i s =
      let mtu = read_or old (env.max_pdu_size netif.pid) in
      let f = classify netif mtu (record { outer = o; inner = i }) in
      let one = Made-one is_read (get_max_pdu_size netif.pid) (calls s.log) refl in
      elim (Bool-cases (is_set f.outer && is_set f.inner)) [
        | inl e ↦ rw e (
          classify_lem netif mtu o i (measured env mtu rest) f
              (Finds-full f.outer f.inner (measured env mtu rest) e),
          one,
        )
        | inr e ↦ rw e (
            Returns-map
              (λ g t.
                Finds f (measured env mtu rest) g
                × Made is_read (get_max_pdu_size netif.pid ∷ calls s.log) (calls t.log))
              (λ g t.
                Finds (record { outer = o; inner = i }) (measured env old (netif ∷ rest)) g
                × OnlyReads s t)
              _
              (λ g t h. (
                classify_lem netif mtu o i (measured env mtu rest) g h.0,
                Made-trans is_read (calls s.log) (get_max_pdu_size netif.pid ∷ calls s.log)
                    (calls t.log) one h.1,
              ))
              (search_lem rest mtu f.outer f.inner _))
      ]

  report_lem :
      (o i : Option Netif) (s : State)
      → Returns (λ _ t. OnlyReads s t) (report env (record { outer = o; inner = i }) s)
  unfolding report print_ifce
  report_lem none none s = Made-none is_read (calls s.log)
  report_lem none (some b) s = Made-one is_read (get_ipv6_addr b.pid) (calls s.log) refl
  report_lem (some a) none s = Made-one is_read (get_ipv6_addr a.pid) (calls s.log) refl
  report_lem (some a) (some b) s =
      (get_ipv6_addr b.pid ∷ get_ipv6_addr a.pid ∷ [], refl, (refl, (refl, tt)))

  abbrev Results : State → Found → State → Type 0
  Results s f t =
      Finds (record { outer = none; inner = none }) (measured env env.old_mtu env.netifs) f
      × OnlyReads s t

  -- `find_ifces` returns, and only reads options. The outer interface is the first whose MTU is
  -- 1500, the inner one the first whose MTU is another, and NULL stands for one that is not there.
  -- An interface whose MTU cannot be read counts with the MTU of the interface before it.
  pub find_ifces_lem :
      (s : State)
      → Returns
          (λ f t.
            (f.outer ≡ first is_ethernet (measured env env.old_mtu env.netifs))
            × (f.inner ≡ first is_other (measured env env.old_mtu env.netifs))
            × OnlyReads s t)
          (find_ifces env s)
  unfolding find_ifces
  find_ifces_lem s =
      Returns-bind (search env env.netifs env.old_mtu (record { outer = none; inner = none }))
        (λ f t. Results s f t)
        (λ f t.
          (f.outer ≡ first is_ethernet (measured env env.old_mtu env.netifs))
          × (f.inner ≡ first is_other (measured env env.old_mtu env.netifs))
          × OnlyReads s t)
        (λ f. do report env f; pure f) s (search_lem env.netifs env.old_mtu none none s)
        (λ f t h.
          Returns-then (report env f) (λ _ u. OnlyReads t u)
            (λ g u.
              (g.outer ≡ first is_ethernet (measured env env.old_mtu env.netifs))
              × (g.inner ≡ first is_other (measured env env.old_mtu env.netifs))
              × OnlyReads s u)
            (pure f) t (report_lem f.outer f.inner t)
            (λ _ u q.
              (h.0.0, h.0.1, Made-trans is_read (calls s.log) (calls t.log) (calls u.log) h.1 q)))
