-- ===== src/Lwip/Sock.antt =====
-- What the three commands share: endpoints, the events of a socket, and the parts of RIOT's API
-- that all of them use. RIOT itself is not modelled: what it answers is a function of the log.
use studio.Base.{ℕ, zero, suc, ◌<◌, Bool, List, [], ◌∷◌, Bytes, length}

pub data Family : Type 0 where
  unspec inet inet6 : Family

-- `sock_udp_ep_t`, `sock_tcp_ep_t` and `sock_ip_ep_t`; the last has no port, and 0 stands there.
pub record Endpoint : Type 0 where
  pub family : Family
  pub addr : Bytes
  pub port : ℕ

-- The bits of `sock_async_flags_t` that the handlers read.
pub record AsyncFlags : Type 0 where
  pub conn_recv : Bool
  pub conn_fin : Bool
  pub msg_recv : Bool

-- `n` times two calls in turn, on top of the calls made before; the newest call stands first.
abbrev pub rounds {ℓ} : {C : Type ℓ} → ℕ → C → C → List C → List C
rounds zero first second before = before
rounds (suc n) first second before = second ∷ first ∷ rounds n first second before

-- Every argument, with its NUL, fits a line of `n` bytes.
abbrev pub FitsLine : ℕ → List Bytes → Type 0
FitsLine n [] = Unit
FitsLine n (arg ∷ argv) = (length arg < n) × FitsLine n argv
