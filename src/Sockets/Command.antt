-- ===== src/Sockets/Command.antt =====
-- examples/native-sockets/main/udp.c: the command line of `udp_cmd`, read by patterns, and what
-- every command line does.
use studio.Base.{
  ℕ, Option, List, [], ◌∷◌, if◌then◌else◌, u16, u32, Bytes, codes, str_eq, Prog, pure, Returns,
  ◌>>◌, calls, ◌≡◌, refl, inl, inr, arith, puts, Bool-cases,
}
use studio.Libc.{atoi}
use studio.Sockets.{
  Env, State, say, udp_send, udp_start_server, optional_arg, cmd_send, cmd_start, cmd_server,
  udp_cmd,
}
use studio.Sockets.Scope.{SameVars, target}
use studio.Sockets.Start.{StartsOn, start_lem}
use studio.Sockets.Laws.{SendsFrom, sockets_udp_send_lem}

-- What a command line asks for.
pub data Request : Type 0 where
  send : Bytes → Bytes → Bytes → ℕ → ℕ → Request
  start : Bytes → Request
  reject : Request

-- The number of rounds and the delay, which may be left off.
abbrev sending : Bytes → Bytes → Bytes → List Bytes → Request
sending addr port text [] = send addr port text 1 1000000
sending addr port text (n ∷ []) = send addr port text (u32 (atoi n)) 1000000
sending addr port text (n ∷ delay ∷ _) = send addr port text (u32 (atoi n)) (u32 (atoi delay))

abbrev send_args : List Bytes → Request
send_args (addr ∷ port ∷ text ∷ options) = sending addr port text options
send_args _ = reject

abbrev server_args : List Bytes → Request
server_args (verb ∷ port ∷ _) = if str_eq verb (codes "start") then start port else reject
server_args _ = reject

-- The arguments behind the command's name.
pub request : List Bytes → Request
request [] = reject
request (verb ∷ args) =
    if str_eq verb (codes "send")
    then send_args args
    else if str_eq verb (codes "server")
    then server_args args
    else reject

module _ (env : Env) where
  -- A request is served by its function; a rejected line fails with status 1 and makes no call.
  abbrev pub Serves : Request → State → Option (ℕ × State) → Type 0
  Serves (send addr port text n delay) s r = r ≡ udp_send env addr port text n delay s
  Serves (start port) s r = r ≡ udp_start_server env port s
  Serves reject s r =
      Returns (λ status t. (status ≡ 1) × (calls t.log ≡ calls s.log) × SameVars s t) r

  cmd_send_lem :
      (name verb : Bytes) (args : List Bytes) (s : State)
      → Serves (send_args args) s (cmd_send env (name ∷ verb ∷ args) s)
  unfolding cmd_send optional_arg
  cmd_send_lem name verb [] s = (refl, refl, (refl, refl))
  cmd_send_lem name verb (addr ∷ []) s = (refl, refl, (refl, refl))
  cmd_send_lem name verb (addr ∷ port ∷ []) s = (refl, refl, (refl, refl))
  cmd_send_lem name verb (addr ∷ port ∷ text ∷ []) s = refl
  cmd_send_lem name verb (addr ∷ port ∷ text ∷ n ∷ []) s = refl
  cmd_send_lem name verb (addr ∷ port ∷ text ∷ n ∷ delay ∷ more) s = ground arith

  cmd_server_lem :
      (name verb : Bytes) (args : List Bytes) (s : State)
      → Serves (server_args args) s (cmd_server env (name ∷ verb ∷ args) s)
  unfolding cmd_server cmd_start
  cmd_server_lem name verb [] s = (refl, refl, (refl, refl))
  cmd_server_lem name verb (what ∷ []) s = elim (Bool-cases (str_eq what (codes "start"))) [
    | inl e ↦ rw e (refl, refl, (refl, refl))
    | inr e ↦ rw e (refl, refl, (refl, refl))
  ]
  cmd_server_lem name verb (what ∷ port ∷ more) s =
      elim (Bool-cases (str_eq what (codes "start"))) [
        | inl e ↦ rw e (ground arith)
        | inr e ↦ rw e (ground arith)
      ]

  refused : Prog State ℕ
  refused = do say (puts "error: invalid command"); pure 1

  dispatch :
      (name verb : Bytes) (args : List Bytes) (s : State)
      → udp_cmd env (name ∷ verb ∷ args) s ≡ (
          if str_eq verb (codes "send")
          then cmd_send env (name ∷ verb ∷ args) s
          else if str_eq verb (codes "server")
          then cmd_server env (name ∷ verb ∷ args) s
          else refused s)
  unfolding udp_cmd refused
  dispatch name verb args s = ground arith

  pub sockets_udp_cmd-request :
      (name : Bytes) (args : List Bytes) (s : State)
      → Serves (request args) s (udp_cmd env (name ∷ args) s)
  unfolding request
  sockets_udp_cmd-request name [] s = unfold udp_cmd in (refl, refl, (refl, refl))
  sockets_udp_cmd-request name (verb ∷ args) s =
      rw (dispatch name verb args s) (elim (Bool-cases (str_eq verb (codes "send"))) [
        | inl is_send ↦ rw is_send (cmd_send_lem name verb args s)
        | inr other ↦ elim (Bool-cases (str_eq verb (codes "server"))) [
          | inl is_server ↦ rw (other, is_server) (cmd_server_lem name verb args s)
          | inr neither ↦ rw (other, neither) (unfold refused in (refl, refl, (refl, refl)))
        ]
      ])

  -- What a request must have done, with the status that it returns.
  abbrev pub Meets : Request → State → ℕ → State → Type 0
  Meets (send addr port text n delay) s r t =
      SendsFrom env (target env addr) (u16 (atoi port)) text n delay s r t
  Meets (start port) s r t = StartsOn env s.server_socket port s r t
  Meets reject s r t = (r ≡ 1) × (calls t.log ≡ calls s.log) × SameVars s t

  Serves-Meets :
      (q : Request) (s : State) (r : Option (ℕ × State)) → Serves q s r → Returns (Meets q s) r
  Serves-Meets (send addr port text n delay) s r served =
      rw served (sockets_udp_send_lem env addr port text n delay s)
  Serves-Meets (start port) s r served =
      rw served (start_lem env s.server_socket s.server_buffer port s.log)
  Serves-Meets reject s r served = served

  -- Every command line returns, having read no argument that is not there. A well-formed `send`
  -- makes its rounds, each of a send and a sleep, on a socket of its own; `server start` makes the
  -- thread if the server's descriptor is negative, and fails with status 1 and without a call if it
  -- is not; every other line, such as one with too few arguments, fails with status 1 and makes no
  -- call.
  pub sockets_udp_cmd_lem :
      (name : Bytes) (args : List Bytes) (s : State)
      → Returns (Meets (request args) s) (udp_cmd env (name ∷ args) s)
  sockets_udp_cmd_lem name args s =
      Serves-Meets (request args) s _ (sockets_udp_cmd-request name args s)
