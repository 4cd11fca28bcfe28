-- ===== src/Sockets/Scope.antt =====
-- examples/native-sockets/main/udp.c: the address and the scope that the text of a destination names.
use studio.Base.{
  ℕ, Bool, true, false, Option, none, some, [], ◌∷◌, if◌then◌else◌, pos, u32, Bytes, Prog, pure,
  Returns, Returns-bind, ◌>>◌, ◌>>=◌, calls, ◌≡◌, refl, ap, printf, str,
}
use studio.Sockets.{Env, State, say, scope_of, split_scope}

-- Nothing but the log has changed.
abbrev pub SameVars : State → State → Type 0
SameVars s t = (t.server_socket ≡ s.server_socket) × (t.server_buffer ≡ s.server_buffer)

-- Nothing was called, and no variable has changed.
abbrev pub Quiet : State → State → Type 0
Quiet s t = (calls t.log ≡ calls s.log) × SameVars s t

module _ (env : Env) where
  -- The scope that is meant.
  abbrev pub scope_meant : Option Bytes → ℕ
  scope_meant none = env.old_scope
  scope_meant (some iface) = elim (env.netif iface) [
    | none ↦ env.old_scope
    | some id ↦ u32 (pos id)
  ]

  -- The address and the scope that a destination's text names.
  abbrev pub target : Bytes → Bytes × ℕ
  target addr =
      if env.sock_has_ipv6
      then ((env.split_iface addr).0, scope_meant (env.split_iface addr).1)
      else (addr, env.old_scope)

  netif_lem :
      (iface : Bytes) (found : Option ℕ) (s : State)
      → Returns
          (λ (r : ℕ) (t : State).
            (r ≡ elim found as (λ _. ℕ) [ none ↦ env.old_scope | some id ↦ u32 (pos id) ])
            × Quiet s t)
          ((elim found as (λ _. Prog State ℕ) [
            | none ↦ do
              say (printf "unknown network interface %s\n" (str iface ∷ []))
              pure env.old_scope
            | some id ↦ pure (u32 (pos id))
          ])
            s)
  netif_lem iface none s = (refl, (refl, (refl, refl)))
  netif_lem iface (some id) s = (refl, (refl, (refl, refl)))

  scope_of_lem :
      (iface : Option Bytes) (s : State)
      → Returns (λ r t. (r ≡ scope_meant iface) × Quiet s t) (scope_of env iface s)
  unfolding scope_of
  scope_of_lem none s = (refl, (refl, (refl, refl)))
  scope_of_lem (some iface) s = netif_lem iface (env.netif iface) s

  split_when_lem :
      (has : Bool) (addr : Bytes) (s : State)
      → Returns
          (λ (r : Bytes × ℕ) (t : State).
            (r ≡ (
              if has
              then ((env.split_iface addr).0, scope_meant (env.split_iface addr).1)
              else (addr, env.old_scope)))
            × Quiet s t)
          ((if has
              then (do
                scope ← scope_of env (env.split_iface addr).1
                pure ((env.split_iface addr).0, scope))
              else pure (addr, env.old_scope))
            s)
  split_when_lem true addr s =
      Returns-bind (scope_of env (env.split_iface addr).1)
        (λ r t. (r ≡ scope_meant (env.split_iface addr).1) × Quiet s t)
        (λ r t. (r ≡ ((env.split_iface addr).0, scope_meant (env.split_iface addr).1)) × Quiet s t)
        (λ scope. pure ((env.split_iface addr).0, scope)) s
        (scope_of_lem (env.split_iface addr).1 s)
        (λ r t h. (ap (λ x. ((env.split_iface addr).0, x)) h.0, h.1))
  split_when_lem false addr s = (refl, (refl, (refl, refl)))

  pub split_scope_lem :
      (addr : Bytes) (s : State)
      → Returns (λ r t. (r ≡ target addr) × Quiet s t) (split_scope env addr s)
  unfolding split_scope
  split_scope_lem addr s = split_when_lem env.sock_has_ipv6 addr s
