-- ===== src/Lwip/Udp/Command.antt =====
-- udp.c: the command line of `udp_cmd`, read by patterns, and what every command line does.
use studio.Base.{
  ℕ, ◌<◌, ◌/◌, Option, List, [], ◌∷◌, length, if◌then◌else◌, is_nonpos, u32, Bytes, codes, str_eq,
  Prog, pure, Returns, ◌>>◌, calls, ◌≡◌, refl, inl, inr, arith, call, puts, Bool-cases,
}
use studio.Lwip.Hex.Decode.{decode}
use studio.Libc.{atoi}
use studio.Lwip.Sock.{FitsLine}
use studio.Lwip.Udp.{
  thread_create, Env, State, say, udp_send, udp_start_server, optional_arg, cmd_send, cmd_start,
  cmd_server, udp_cmd,
}
use studio.Lwip.Udp.Laws.{SameVars, udp_send_lem, usable, Sends}

-- What a command line asks for.
pub data Request : Type 0 where
  send : Bytes → Bytes → ℕ → ℕ → Request
  start : Bytes → Request
  reject : Request

-- The number of rounds and the delay, which may be left off.
abbrev sending : Bytes → Bytes → List Bytes → Request
sending addr text [] = send addr text 1 1000000
sending addr text (n ∷ []) = send addr text (u32 (atoi n)) 1000000
sending addr text (n ∷ delay ∷ _) = send addr text (u32 (atoi n)) (u32 (atoi delay))

abbrev send_args : List Bytes → Request
send_args (addr ∷ text ∷ options) = sending addr text options
send_args _ = reject

abbrev server_args : List Bytes → Request
server_args (verb ∷ port ∷ _) = if str_eq verb (codes "start") then start port else reject
server_args _ = reject

-- The arguments behind the command's name.
pub request : List Bytes → Request
request [] = reject
request (verb ∷ args) =
    if str_eq verb (codes "send")
    then send_args args
    else if str_eq verb (codes "server")
    then server_args args
    else reject

module _ (env : Env) where
  -- A request is served by its function; a rejected line fails with status 1 and makes no call.
  abbrev pub Serves : Request → State → Option (ℕ × State) → Type 0
  Serves (send addr text n delay) s r = r ≡ udp_send env addr text n delay s
  Serves (start port) s r = r ≡ udp_start_server env port s
  Serves reject s r =
      Returns (λ status t. (status ≡ 1) × (calls t.log ≡ calls s.log) × SameVars s t) r

  cmd_send_lem :
      (name verb : Bytes) (args : List Bytes) (s : State)
      → Serves (send_args args) s (cmd_send env (name ∷ verb ∷ args) s)
  unfolding cmd_send optional_arg
  cmd_send_lem name verb [] s = (refl, refl, (refl, refl))
  cmd_send_lem name verb (addr ∷ []) s = (refl, refl, (refl, refl))
  cmd_send_lem name verb (addr ∷ text ∷ []) s = refl
  cmd_send_lem name verb (addr ∷ text ∷ n ∷ []) s = refl
  cmd_send_lem name verb (addr ∷ text ∷ n ∷ delay ∷ more) s = ground arith

  cmd_server_lem :
      (name verb : Bytes) (args : List Bytes) (s : State)
      → Serves (server_args args) s (cmd_server env (name ∷ verb ∷ args) s)
  unfolding cmd_server cmd_start
  cmd_server_lem name verb [] s = (refl, refl, (refl, refl))
  cmd_server_lem name verb (what ∷ []) s = elim (Bool-cases (str_eq what (codes "start"))) [
    | inl e ↦ rw e (refl, refl, (refl, refl))
    | inr e ↦ rw e (refl, refl, (refl, refl))
  ]
  cmd_server_lem name verb (what ∷ port ∷ more) s =
      elim (Bool-cases (str_eq what (codes "start"))) [
        | inl e ↦ rw e (ground arith)
        | inr e ↦ rw e (ground arith)
      ]

  refused : Prog State ℕ
  refused = do say (puts "error: invalid command"); pure 1

  dispatch :
      (name verb : Bytes) (args : List Bytes) (s : State)
      → udp_cmd env (name ∷ verb ∷ args) s ≡ (
          if str_eq verb (codes "send")
          then cmd_send env (name ∷ verb ∷ args) s
          else if str_eq verb (codes "server")
          then cmd_server env (name ∷ verb ∷ args) s
          else refused s)
  unfolding udp_cmd refused
  dispatch name verb args s = ground arith

  pub udp_cmd-request :
      (name : Bytes) (args : List Bytes) (s : State)
      → Serves (request args) s (udp_cmd env (name ∷ args) s)
  unfolding request
  udp_cmd-request name [] s = unfold udp_cmd in (refl, refl, (refl, refl))
  udp_cmd-request name (verb ∷ args) s =
      rw (dispatch name verb args s) (elim (Bool-cases (str_eq verb (codes "send"))) [
        | inl is_send ↦ rw is_send (cmd_send_lem name verb args s)
        | inr other ↦ elim (Bool-cases (str_eq verb (codes "server"))) [
          | inl is_server ↦ rw (other, is_server) (cmd_server_lem name verb args s)
          | inr neither ↦ rw (other, neither) (unfold refused in (refl, refl, (refl, refl)))
        ]
      ])

  -- What a request must have done, with the status that it returns.
  abbrev pub Meets : Request → State → ℕ → State → Type 0
  Meets (send addr text n delay) s r t =
      Sends env (usable env (env.str2ep addr)) (decode text) n delay s r t
  Meets (start port) s r t =
      (r ≡ (if is_nonpos (env.thread (call (thread_create port) ∷ s.log)) then 1 else 0))
      × (calls t.log ≡ thread_create port ∷ calls s.log)
      × SameVars s t
  Meets reject s r t = (r ≡ 1) × (calls t.log ≡ calls s.log) × SameVars s t

  abbrev TextFits : ℕ → Request → Type 0
  TextFits n (send addr text _ _) = length text < n
  TextFits n (start port) = Unit
  TextFits n reject = Unit

  send_args-TextFits : (n : ℕ) (args : List Bytes) → FitsLine n args → TextFits n (send_args args)
  send_args-TextFits n [] h = tt
  send_args-TextFits n (addr ∷ []) h = tt
  send_args-TextFits n (addr ∷ text ∷ []) h = h.1.0
  send_args-TextFits n (addr ∷ text ∷ k ∷ []) h = h.1.0
  send_args-TextFits n (addr ∷ text ∷ k ∷ d ∷ more) h = h.1.0

  server_args-TextFits : (n : ℕ) (args : List Bytes) → TextFits n (server_args args)
  server_args-TextFits n [] = tt
  server_args-TextFits n (verb ∷ []) = tt
  server_args-TextFits n (verb ∷ port ∷ more) = elim (Bool-cases (str_eq verb (codes "start"))) [
    | inl e ↦ rw e tt
    | inr e ↦ rw e tt
  ]

  request-TextFits : (n : ℕ) (args : List Bytes) → FitsLine n args → TextFits n (request args)
  unfolding request
  request-TextFits n [] h = tt
  request-TextFits n (verb ∷ args) h = elim (Bool-cases (str_eq verb (codes "send"))) [
    | inl e ↦ rw e (send_args-TextFits n args h.1)
    | inr e ↦ elim (Bool-cases (str_eq verb (codes "server"))) [
      | inl f ↦ rw (e, f) (server_args-TextFits n args)
      | inr f ↦ rw (e, f) tt
    ]
  ]

  Serves-Meets :
      (q : Request) (s : State) (r : Option (ℕ × State))
      → length env.byte_data ≡ env.shell_bufsize / 2
      → TextFits env.shell_bufsize q
      → Serves q s r
      → Returns (Meets q s) r
  unfolding udp_start_server
  Serves-Meets (send addr text n delay) s r e h served =
      rw served (udp_send_lem env addr text n delay s e h)
  Serves-Meets (start port) s r e h served = rw served (refl, refl, (refl, refl))
  Serves-Meets reject s r e h served = served

  -- For every command line that fits the shell's buffer `udp_cmd` returns, having accessed no
  -- memory outside its arrays, and has done what the line asks for: a well-formed `send` makes its
  -- rounds of a send and a sleep, `server start` makes the thread, and every other line, such as
  -- one with too few arguments, fails with status 1 and makes no call.
  pub udp_cmd_lem :
      (name : Bytes) (args : List Bytes) (s : State)
      → length env.byte_data ≡ env.shell_bufsize / 2
      → FitsLine env.shell_bufsize args
      → Returns (Meets (request args) s) (udp_cmd env (name ∷ args) s)
  udp_cmd_lem name args s e h =
      Serves-Meets (request args) s _ e (request-TextFits env.shell_bufsize args h)
        (udp_cmd-request name args s)
