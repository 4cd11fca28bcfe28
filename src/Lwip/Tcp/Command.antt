-- ===== src/Lwip/Tcp/Command.antt =====
-- tcp.c: the command line of `tcp_cmd`, read by patterns, and what every command line does.
use studio.Base.{
  ℕ, suc, ◌/◌, false, Option, none, some, List, [], ◌∷◌, length, ltb, if◌then◌else◌, is_nonpos, u32,
  Bytes, codes, str_eq, pure, ◌>>◌, Returns, calls, ◌≡◌, refl, inl, inr, arith, call, puts,
  Bool-cases,
}
use studio.Libc.{atoi}
use studio.Lwip.Hex.Decode.{decode}
use studio.Lwip.Sock.{FitsLine}
use studio.Lwip.Tcp.{
  client_sock, thread_create, sock_tcp_disconnect, Env, State, say, fail, tcp_disconnect, tcp_send,
  tcp_start_server, optional_arg, cmd_connect, cmd_send, cmd_start, cmd_server, tcp_cmd,
}
use studio.Lwip.Tcp.Laws.{
  SameServer, SameVars, Fails, usable, local_port, Connects, Sends, tcp_connect_lem,
  tcp_disconnect_lem, tcp_send_lem,
}

-- What a command line asks for.
pub data Request : Type 0 where
  connect : Bytes → Option Bytes → Request
  disconnect : Request
  send : Bytes → ℕ → ℕ → Request
  start : Bytes → Request
  reject : Request

abbrev connect_args : List Bytes → Request
connect_args [] = reject
connect_args (addr ∷ []) = connect addr none
connect_args (addr ∷ local ∷ _) = connect addr (some local)

-- The number of rounds and the delay may be left off.
abbrev send_args : List Bytes → Request
send_args [] = reject
send_args (text ∷ []) = send text 1 1000000
send_args (text ∷ n ∷ []) = send text (u32 (atoi n)) 1000000
send_args (text ∷ n ∷ delay ∷ _) = send text (u32 (atoi n)) (u32 (atoi delay))

abbrev server_args : List Bytes → Request
server_args (verb ∷ port ∷ _) = if str_eq verb (codes "start") then start port else reject
server_args (verb ∷ []) = reject
server_args [] = reject

-- The arguments behind the command's name.
pub request : List Bytes → Request
request [] = reject
request (verb ∷ args) =
    if str_eq verb (codes "connect")
    then connect_args args
    else if str_eq verb (codes "disconnect")
    then disconnect
    else if str_eq verb (codes "send")
    then send_args args
    else if str_eq verb (codes "server")
    then server_args args
    else reject

long_enough : (n : ℕ) → ltb (suc (suc (suc (suc n)))) 3 ≡ false
long_enough n = ground arith

module _ (env : Env) where
  -- What a request must have done, with the status that it returns.
  abbrev pub Meets : Request → State → ℕ → State → Type 0
  Meets (connect addr local) s r t =
      Connects env s.client_running (usable env (env.str2ep addr)) (local_port env local) s r t
  Meets disconnect s r t =
      (r ≡ 0)
      × (calls t.log ≡ sock_tcp_disconnect client_sock ∷ calls s.log)
      × (t.client_running ≡ false)
      × SameServer s t
  Meets (send text n delay) s r t = Sends env (decode text) n delay s r t
  Meets (start port) s r t =
      (r ≡ (if is_nonpos (env.thread (call (thread_create port) ∷ s.log)) then 1 else 0))
      × (calls t.log ≡ thread_create port ∷ calls s.log)
      × SameVars s t
  Meets reject s r t = Fails s r t

  cmd_connect_lem :
      (name verb : Bytes) (args : List Bytes) (s : State)
      → Returns (Meets (connect_args args) s) (cmd_connect env (name ∷ verb ∷ args) s)
  unfolding cmd_connect
  cmd_connect_lem name verb [] s = (refl, refl, (refl, (refl, refl, refl)))
  cmd_connect_lem name verb (addr ∷ []) s = tcp_connect_lem env addr none s
  cmd_connect_lem name verb (addr ∷ local ∷ more) s =
      rw (long_enough (length more)) (tcp_connect_lem env addr (some local) s)

  cmd_send_full :
      (name verb text n delay : Bytes) (more : List Bytes) (s : State)
      → cmd_send env (name ∷ verb ∷ text ∷ n ∷ delay ∷ more) s
        ≡ tcp_send env text (u32 (atoi n)) (u32 (atoi delay)) s
  unfolding cmd_send optional_arg
  cmd_send_full name verb text n delay more s = ground arith

  cmd_start_full :
      (name verb what port : Bytes) (more : List Bytes) (s : State)
      → cmd_start env (name ∷ verb ∷ what ∷ port ∷ more) s ≡ tcp_start_server env port s
  unfolding cmd_start
  cmd_start_full name verb what port more s = ground arith

  cmd_server_full :
      (name verb what port : Bytes) (more : List Bytes) (s : State)
      → cmd_server env (name ∷ verb ∷ what ∷ port ∷ more) s ≡ (
          if str_eq what (codes "start")
          then cmd_start env (name ∷ verb ∷ what ∷ port ∷ more) s
          else (do say (puts "error: invalid command"); pure 1) s)
  unfolding cmd_server
  cmd_server_full name verb what port more s = ground arith

  cmd_server_lem :
      (name verb : Bytes) (args : List Bytes) (s : State)
      → Returns (Meets (server_args args) s) (cmd_server env (name ∷ verb ∷ args) s)
  unfolding cmd_server cmd_start tcp_start_server
  cmd_server_lem name verb [] s = (refl, refl, (refl, (refl, refl, refl)))
  cmd_server_lem name verb (what ∷ []) s = elim (Bool-cases (str_eq what (codes "start"))) [
    | inl e ↦ rw e (refl, refl, (refl, (refl, refl, refl)))
    | inr e ↦ rw e (refl, refl, (refl, (refl, refl, refl)))
  ]
  cmd_server_lem name verb (what ∷ port ∷ more) s =
      rw (cmd_server_full name verb what port more s, cmd_start_full)
        (elim (Bool-cases (str_eq what (codes "start"))) [
          | inl e ↦ rw e (refl, refl, (refl, (refl, refl, refl)))
          | inr e ↦ rw e (refl, refl, (refl, (refl, refl, refl)))
        ])

  dispatch :
      (name verb : Bytes) (args : List Bytes) (s : State)
      → tcp_cmd env (name ∷ verb ∷ args) s ≡ (
          if str_eq verb (codes "connect")
          then cmd_connect env (name ∷ verb ∷ args) s
          else if str_eq verb (codes "disconnect")
          then tcp_disconnect env s
          else if str_eq verb (codes "send")
          then cmd_send env (name ∷ verb ∷ args) s
          else if str_eq verb (codes "server")
          then cmd_server env (name ∷ verb ∷ args) s
          else fail env "error: invalid command" s)
  unfolding tcp_cmd
  dispatch name verb args s = ground arith

  module _ (sized : length env.byte_data ≡ env.shell_bufsize / 2) where
    cmd_send_lem :
        (name verb : Bytes) (args : List Bytes) (s : State)
        → FitsLine env.shell_bufsize args
        → Returns (Meets (send_args args) s) (cmd_send env (name ∷ verb ∷ args) s)
    cmd_send_lem name verb [] s h = unfold cmd_send in (refl, refl, (refl, (refl, refl, refl)))
    cmd_send_lem name verb (text ∷ []) s h =
        unfold cmd_send optional_arg in tcp_send_lem env text _ _ s sized h.0
    cmd_send_lem name verb (text ∷ n ∷ []) s h =
        unfold cmd_send optional_arg in tcp_send_lem env text _ _ s sized h.0
    cmd_send_lem name verb (text ∷ n ∷ delay ∷ more) s h =
        rw (cmd_send_full name verb text n delay more s) (tcp_send_lem env text _ _ s sized h.0)

    run_verb :
        (name verb : Bytes) (args : List Bytes) (s : State)
        → FitsLine env.shell_bufsize args
        → Returns (Meets (request (verb ∷ args)) s) (tcp_cmd env (name ∷ verb ∷ args) s)
    unfolding request fail
    run_verb name verb args s h =
        rw (dispatch name verb args s) (elim (Bool-cases (str_eq verb (codes "connect"))) [
          | inl c ↦ rw c (cmd_connect_lem name verb args s)
          | inr c ↦ elim (Bool-cases (str_eq verb (codes "disconnect"))) [
            | inl d ↦ rw (c, d) (tcp_disconnect_lem env s)
            | inr d ↦ elim (Bool-cases (str_eq verb (codes "send"))) [
              | inl e ↦ rw (c, d, e) (cmd_send_lem name verb args s h)
              | inr e ↦ elim (Bool-cases (str_eq verb (codes "server"))) [
                | inl f ↦ rw (c, d, e, f) (cmd_server_lem name verb args s)
                | inr f ↦ rw (c, d, e, f) (refl, refl, (refl, (refl, refl, refl)))
              ]
            ]
          ]
        ])

  -- For every command line that fits the shell's buffer `tcp_cmd` returns, having accessed no
  -- memory outside its arrays, and has done what the line asks for: `connect`, `disconnect`, `send`
  -- and `server start` as their functions promise; every other line fails with status 1, makes no
  -- call and changes no variable.
  pub tcp_cmd_lem :
      (name : Bytes) (args : List Bytes) (s : State)
      → length env.byte_data ≡ env.shell_bufsize / 2
      → FitsLine env.shell_bufsize args
      → Returns (Meets (request args) s) (tcp_cmd env (name ∷ args) s)
  unfolding tcp_cmd request
  tcp_cmd_lem name [] s e h = (refl, refl, (refl, (refl, refl, refl)))
  tcp_cmd_lem name (verb ∷ args) s e h = run_verb e name verb args s h.1
