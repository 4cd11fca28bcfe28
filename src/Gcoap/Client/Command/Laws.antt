-- ===== src/Gcoap/Client/Command/Laws.antt =====
-- examples/xbd-net/modules/minerva_gcoap/client.c: the command line of `gcoap_cli_cmd`, read by
-- patterns.
use studio.Base.{
  Event, ℕ, Bool, true, false, Option, none, some, List, [], ◌∷◌, if◌then◌else◌, Bytes, codes,
  str_eq, Returns, calls, ◌≡◌, refl, inl, inr, arith, Bool-cases,
}
use studio.Gcoap.{Call, MsgType, con, non, Method, ping, get, post, put, Env, State}
use studio.Gcoap.Server.{server_init}
use studio.Gcoap.Same.{SameVars}
use studio.Gcoap.Client.Config.{print_usage, cmd_info, cmd_proxy}
use studio.Gcoap.Client.Command.{
  find_method, is_ping, default_type, fits_method, method_usage, path_arg, payload_arg, has_confirm,
  request_method, cmd_at, cmd_method, gcoap_cli_cmd, test_argv, null_text, test_gcoap_req,
}

-- What a command line asks for. A request has its method, type, address, path and payload.
pub data Request : Type 0 where
  server info : Request
  proxy : List Bytes → Request
  request : Method → MsgType → Bytes → Option Bytes → Bytes → Request
  reject : Request

-- The arguments of a method behind its options.
abbrev operands : Method → MsgType → List Bytes → Request
operands m t [] = reject
operands ping t (addr ∷ []) = request ping t addr none []
operands get t (addr ∷ []) = reject
operands post t (addr ∷ []) = reject
operands put t (addr ∷ []) = reject
operands ping t (addr ∷ path ∷ []) = reject
operands get t (addr ∷ path ∷ []) = request get t addr (some path) []
operands post t (addr ∷ path ∷ []) = request post t addr (some path) []
operands put t (addr ∷ path ∷ []) = request put t addr (some path) []
operands ping t (addr ∷ path ∷ text ∷ []) = reject
operands get t (addr ∷ path ∷ text ∷ []) = reject
operands post t (addr ∷ path ∷ text ∷ []) = request post t addr (some path) text
operands put t (addr ∷ path ∷ text ∷ []) = request put t addr (some path) text
operands m t (addr ∷ path ∷ text ∷ x ∷ more) = reject

-- The methods by their names, as they are written on the command line.
abbrev method_names : List (Bytes × Method)
method_names =
    (codes "ping", ping) ∷ (codes "get", get) ∷ (codes "post", post) ∷ (codes "put", put) ∷ []

abbrev named : List (Bytes × Method) → Bytes → Option Method
named [] verb = none
named ((name, m) ∷ rest) verb = if str_eq verb name then some m else named rest verb

-- Without an option a ping is confirmable, and the others are not.
abbrev plain_type : Method → MsgType
plain_type ping = con
plain_type get = non
plain_type post = non
plain_type put = non

-- With `-c` a request is confirmable; a ping always is.
abbrev options : Method → List Bytes → Request
options m [] = reject
options m (arg ∷ args) =
    if str_eq arg (codes "-c")
    then operands m con args
    else operands m (plain_type m) (arg ∷ args)

abbrev method_args : Option Method → List Bytes → Request
method_args none args = reject
method_args (some m) args = options m args

-- The arguments behind the command's name.
pub parse : List Bytes → Request
parse [] = reject
parse (verb ∷ args) =
    if str_eq verb (codes "server")
    then server
    else if str_eq verb (codes "info")
    then info
    else if str_eq verb (codes "proxy")
    then proxy args
    else method_args (named method_names verb) args

module _ (env : Env) where
  -- A request is served by its function; a rejected line prints a usage, fails with status 1 and
  -- makes no call.
  abbrev pub Serves : List Bytes → Request → State → Option (ℕ × State) → Type 0
  Serves argv server s r = r ≡ server_init env s
  Serves argv info s r = r ≡ cmd_info env s
  Serves argv (proxy args) s r = r ≡ cmd_proxy env argv s
  Serves argv (request m t addr path text) s r = r ≡ request_method env argv m t addr path text s
  Serves argv reject s r =
      Returns (λ status t. (status ≡ 1) × (calls t.log ≡ calls s.log) × SameVars s t) r

  default_type-plain_type : (m : Method) → default_type m ≡ plain_type m
  unfolding default_type is_ping
  default_type-plain_type ping = refl
  default_type-plain_type get = refl
  default_type-plain_type post = refl
  default_type-plain_type put = refl

  at_2 :
      (name verb : Bytes) (m : Method) (msg_type : MsgType) (args : List Bytes) (s : State)
      → let argv = name ∷ verb ∷ args in
        Serves argv (operands m msg_type args) s (cmd_at env argv m msg_type 2 s)
  unfolding cmd_at fits_method path_arg payload_arg is_ping method_usage
  at_2 name verb ping msg_type [] s = (refl, refl, (refl, refl, refl, refl, refl, refl))
  at_2 name verb ping msg_type (a ∷ []) s = refl
  at_2 name verb ping msg_type (a ∷ b ∷ []) s = (refl, refl, (refl, refl, refl, refl, refl, refl))
  at_2 name verb ping msg_type (a ∷ b ∷ d ∷ []) s =
      (refl, refl, (refl, refl, refl, refl, refl, refl))
  at_2 name verb ping msg_type (a ∷ b ∷ d ∷ x ∷ more) s = ground arith
  at_2 name verb get msg_type [] s = (refl, refl, (refl, refl, refl, refl, refl, refl))
  at_2 name verb get msg_type (a ∷ []) s = (refl, refl, (refl, refl, refl, refl, refl, refl))
  at_2 name verb get msg_type (a ∷ b ∷ []) s = refl
  at_2 name verb get msg_type (a ∷ b ∷ d ∷ []) s =
      (refl, refl, (refl, refl, refl, refl, refl, refl))
  at_2 name verb get msg_type (a ∷ b ∷ d ∷ x ∷ more) s = ground arith
  at_2 name verb post msg_type [] s = (refl, refl, (refl, refl, refl, refl, refl, refl))
  at_2 name verb post msg_type (a ∷ []) s = (refl, refl, (refl, refl, refl, refl, refl, refl))
  at_2 name verb post msg_type (a ∷ b ∷ []) s = refl
  at_2 name verb post msg_type (a ∷ b ∷ d ∷ []) s = refl
  at_2 name verb post msg_type (a ∷ b ∷ d ∷ x ∷ more) s = ground arith
  at_2 name verb put msg_type [] s = (refl, refl, (refl, refl, refl, refl, refl, refl))
  at_2 name verb put msg_type (a ∷ []) s = (refl, refl, (refl, refl, refl, refl, refl, refl))
  at_2 name verb put msg_type (a ∷ b ∷ []) s = refl
  at_2 name verb put msg_type (a ∷ b ∷ d ∷ []) s = refl
  at_2 name verb put msg_type (a ∷ b ∷ d ∷ x ∷ more) s = ground arith

  at_3 :
      (name verb c : Bytes) (m : Method) (msg_type : MsgType) (args : List Bytes) (s : State)
      → let argv = name ∷ verb ∷ c ∷ args in
        Serves argv (operands m msg_type args) s (cmd_at env argv m msg_type 3 s)
  unfolding cmd_at fits_method path_arg payload_arg is_ping method_usage
  at_3 name verb c ping msg_type [] s = (refl, refl, (refl, refl, refl, refl, refl, refl))
  at_3 name verb c ping msg_type (a ∷ []) s = refl
  at_3 name verb c ping msg_type (a ∷ b ∷ []) s = (refl, refl, (refl, refl, refl, refl, refl, refl))
  at_3 name verb c ping msg_type (a ∷ b ∷ d ∷ []) s =
      (refl, refl, (refl, refl, refl, refl, refl, refl))
  at_3 name verb c ping msg_type (a ∷ b ∷ d ∷ x ∷ more) s = ground arith
  at_3 name verb c get msg_type [] s = (refl, refl, (refl, refl, refl, refl, refl, refl))
  at_3 name verb c get msg_type (a ∷ []) s = (refl, refl, (refl, refl, refl, refl, refl, refl))
  at_3 name verb c get msg_type (a ∷ b ∷ []) s = refl
  at_3 name verb c get msg_type (a ∷ b ∷ d ∷ []) s =
      (refl, refl, (refl, refl, refl, refl, refl, refl))
  at_3 name verb c get msg_type (a ∷ b ∷ d ∷ x ∷ more) s = ground arith
  at_3 name verb c post msg_type [] s = (refl, refl, (refl, refl, refl, refl, refl, refl))
  at_3 name verb c post msg_type (a ∷ []) s = (refl, refl, (refl, refl, refl, refl, refl, refl))
  at_3 name verb c post msg_type (a ∷ b ∷ []) s = refl
  at_3 name verb c post msg_type (a ∷ b ∷ d ∷ []) s = refl
  at_3 name verb c post msg_type (a ∷ b ∷ d ∷ x ∷ more) s = ground arith
  at_3 name verb c put msg_type [] s = (refl, refl, (refl, refl, refl, refl, refl, refl))
  at_3 name verb c put msg_type (a ∷ []) s = (refl, refl, (refl, refl, refl, refl, refl, refl))
  at_3 name verb c put msg_type (a ∷ b ∷ []) s = refl
  at_3 name verb c put msg_type (a ∷ b ∷ d ∷ []) s = refl
  at_3 name verb c put msg_type (a ∷ b ∷ d ∷ x ∷ more) s = ground arith

  confirm_step :
      (name verb arg : Bytes) (m : Method) (args : List Bytes) (s : State)
      → let argv = name ∷ verb ∷ arg ∷ args in
        cmd_method env argv (some m) s
        ≡ (if str_eq arg (codes "-c")
              then cmd_at env argv m con 3
              else cmd_at env argv m (default_type m) 2)
            s
  unfolding cmd_method has_confirm
  confirm_step name verb arg m args s = ground arith

  usage_lem :
      (name verb : Bytes) (args : List Bytes) (s : State)
      → Serves (name ∷ verb ∷ args) reject s (print_usage (name ∷ verb ∷ args) s)
  unfolding print_usage
  usage_lem name verb args s = (refl, refl, (refl, refl, refl, refl, refl, refl))

  options_lem :
      (confirmed : Bool) (name verb arg : Bytes) (m : Method) (args : List Bytes) (s : State)
      → let argv = name ∷ verb ∷ arg ∷ args in
        Serves argv
          (if confirmed then operands m con args else operands m (plain_type m) (arg ∷ args))
          s
          ((if confirmed then cmd_at env argv m con 3 else cmd_at env argv m (default_type m) 2) s)
  options_lem true name verb arg m args s = at_3 name verb arg m con args s
  options_lem false name verb arg m args s = rw (default_type-plain_type m) (at_2 name verb m (plain_type m) (arg ∷ args) s)

  cmd_method_lem :
      (name verb : Bytes) (found : Option Method) (args : List Bytes) (s : State)
      → Serves
          (name ∷ verb ∷ args)
          (method_args found args)
          s
          (cmd_method env (name ∷ verb ∷ args) found s)
  cmd_method_lem name verb none args s = unfold cmd_method in usage_lem name verb args s
  cmd_method_lem name verb (some m) [] s =
      unfold cmd_method has_confirm in at_2 name verb m (default_type m) [] s
  cmd_method_lem name verb (some m) (arg ∷ args) s =
      rw (confirm_step name verb arg m args s)
        (options_lem (str_eq arg (codes "-c")) name verb arg m args s)

  dispatch :
      (name verb : Bytes) (args : List Bytes) (s : State)
      → gcoap_cli_cmd env (name ∷ verb ∷ args) s ≡ (
          if str_eq verb (codes "server")
          then server_init env s
          else if str_eq verb (codes "info")
          then cmd_info env s
          else if str_eq verb (codes "proxy")
          then cmd_proxy env (name ∷ verb ∷ args) s
          else cmd_method env (name ∷ verb ∷ args) (find_method verb) s)
  unfolding gcoap_cli_cmd
  dispatch name verb args s = ground arith

  pub gcoap_cli_cmd_lem :
      (name : Bytes) (args : List Bytes) (s : State)
      → Serves (name ∷ args) (parse args) s (gcoap_cli_cmd env (name ∷ args) s)
  unfolding parse find_method
  gcoap_cli_cmd_lem name [] s =
      unfold gcoap_cli_cmd print_usage in (refl, refl, (refl, refl, refl, refl, refl, refl))
  gcoap_cli_cmd_lem name (verb ∷ args) s =
      rw (dispatch name verb args s) (elim (Bool-cases (str_eq verb (codes "server"))) [
        | inl a ↦ rw a refl
        | inr a ↦ elim (Bool-cases (str_eq verb (codes "info"))) [
          | inl b ↦ rw (a, b) refl
          | inr b ↦ elim (Bool-cases (str_eq verb (codes "proxy"))) [
            | inl c ↦ rw (a, b, c) refl
            | inr c ↦ rw (a, b, c) (cmd_method_lem name verb (find_method verb) args s)
          ]
        ]
      ])

  abbrev test_line : Bytes → Bytes → Option Bytes → List Bytes
  test_line req addr none = req ∷ addr ∷ []
  test_line req addr (some uri) = req ∷ addr ∷ uri ∷ []

  -- A test's request is the command line of its words, after one line that was printed.
  pub test_gcoap_req_lem :
      (req addr : Bytes) (uri : Option Bytes) (s : State)
      → (line : Event Call) × Serves
          (codes "gcoap" ∷ test_line req addr uri)
          (parse (test_line req addr uri))
          (record s { log = line ∷ s.log })
          (test_gcoap_req env req addr uri s)
  unfolding test_gcoap_req test_argv null_text
  test_gcoap_req_lem req addr none s =
      (_, gcoap_cli_cmd_lem (codes "gcoap") (req ∷ addr ∷ []) (record s { log = _ ∷ s.log }))
  test_gcoap_req_lem req addr (some uri) s =
      (_, gcoap_cli_cmd_lem (codes "gcoap") (req ∷ addr ∷ uri ∷ []) (record s { log = _ ∷ s.log }))
