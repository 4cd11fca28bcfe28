-- ===== src/Gcoap/Same.antt =====
-- examples/xbd-net/modules/minerva_gcoap: what it means that no variable has changed.
use studio.Base.{◌≡◌, ◌∙◌}
use studio.Gcoap.{State}

-- Nothing but the log has changed.
abbrev pub SameVars : State → State → Type 0
SameVars s t =
    (t.server_init_done ≡ s.server_init_done)
    × (t.req_count ≡ s.req_count)
    × (t.proxied ≡ s.proxied)
    × (t.proxy_remote ≡ s.proxy_remote)
    × (t.proxy_uri ≡ s.proxy_uri)
    × (t.last_req_path ≡ s.last_req_path)

pub SameVars-trans : (s t u : State) → SameVars s t → SameVars t u → SameVars s u
SameVars-trans s t u (a, b, c, d, e, f) (a', b', c', d', e', f') =
    (a' ∙ a, b' ∙ b, c' ∙ c, d' ∙ d, e' ∙ e, f' ∙ f)
