-- ===== src/Xbd.antt =====
-- examples/xbd-net/modules/minerva_xbd: the asynchronous shell (shell.c) and the timers for the Rust
-- side (xbd.c). `Env` is RIOT and the Rust side: what their functions answer.
pub mod Shell
pub mod Timers
use studio.Base.{
  ℕ, zero, suc, Bool, true, false, not, Option, none, some, List, [], ◌∷◌, ◌==◌, if◌then◌else◌,
  Bytes, codes, Prog, pure, lift, gets, modify, ◌>>=◌, ◌>>◌, Event, puts, printf, call, num, str,
  Log,
}

pub data Call : Type 0 where
  real_read : ℕ → Call
  async_shell_on_char : ℕ → Call
  async_read_continue : ℕ → Call
  async_read_setup : Call
  async_read_add_handler : ℕ → Call
  shell_run : List Bytes → Call
  xtimer_usleep : ℕ → Call
  ztimer_sleep : ℕ → Call
  calloc : Call
  ztimer_set : ℕ → ℕ → Call

-- `read` is the byte that was read, `none` for any status but 1. `allocated` is the pointer that
-- `calloc` gives, `none` for NULL.
pub record Env : Type 0 where
  pub board_native : Bool
  pub read : Log Call → Option ℕ
  pub allocated : Log Call → Option ℕ
  pub shell_default_bufsize : ℕ

-- `ztimer_t`: the function to call and its argument, as the values of their pointers.
pub record Timer : Type 0 where
  pub callback : ℕ
  pub arg : ℕ

-- The static variables, the allocated timers by their pointers, and the log.
pub record State : Type 0 where
  pub init_async_shell_done : Bool
  pub blink : Bool
  pub timers : ℕ → Timer
  pub log : Log Call

abbrev pub say : Event Call → Prog State Unit
say e = modify (λ s. record s { log = e ∷ s.log })

abbrev pub ask : {A : Type 0} → Call → (Log Call → A) → Prog State A
ask c answer s = let l = call c ∷ s.log in some (answer l, record s { log = l })

module _ (env : Env) where
  -- The loop of `io_signal_handler`; `none` is the end of the fuel.
  pub read_loop : ℕ → ℕ → Prog State Unit
  read_loop zero fd = lift none
  read_loop (suc fuel) fd = do
    c ← ask (real_read fd) env.read
    elim c [
      | none ↦ say (call (async_shell_on_char 0))
      | some c ↦ do say (call (async_shell_on_char c)); read_loop fuel fd
    ]

  pub io_signal_handler : ℕ → ℕ → Prog State Unit
  io_signal_handler fuel fd = do read_loop fuel fd; say (call (async_read_continue fd))

  init_native : Bool → Prog State ℕ
  init_native true = pure 1
  init_native false = do
    modify (λ s. record s { init_async_shell_done = true })
    say (call async_read_setup)
    say (call (async_read_add_handler 0))
    pure 0

  -- With the variant for other boards.
  pub xbd_async_shell_init : Prog State ℕ
  xbd_async_shell_init =
      if env.board_native
      then (do done ← gets (λ s. s.init_async_shell_done); init_native done)
      else do say (printf "@@ xbd_async_shell_init(): TODO - support non-native board\n" []); pure 2

  pub xbd_async_shell_bufsize : Prog State ℕ
  xbd_async_shell_bufsize = pure env.shell_default_bufsize

  set_timer : ℕ → ℕ → ℕ → Option ℕ → Prog State ℕ
  set_timer delay cb_handler arg_ptr none = lift none
  set_timer delay cb_handler arg_ptr (some timeout) = do
    modify (λ s. record s {
      timers =
          λ p. if p == timeout then record { callback = cb_handler; arg = arg_ptr } else s.timers p;
    })
    say (call (ztimer_set timeout delay))
    pure timeout

  -- The result is what is written to `*timeout_pp`. A write through NULL is `none`.
  pub xbd_ztimer_set : ℕ → ℕ → ℕ → Prog State ℕ
  xbd_ztimer_set delay cb_handler arg_ptr = do
    timeout ← ask calloc env.allocated
    set_timer delay cb_handler arg_ptr timeout

-- The text of a tag that may be NULL.
tag_text : Option Bytes → Bytes
tag_text none = []
tag_text (some tag) = tag

pub xbd_async_shell_prompt : Option Bytes → Bool → Prog State Unit
xbd_async_shell_prompt tag highlight =
    if highlight
    then say (printf "\033[01;31m%s>\033[00m " (str (tag_text tag) ∷ []))
    else say (printf "%s> " (str (tag_text tag) ∷ []))

-- The names of `xbd_shell_commands`, which `xbd_shell_get_commands` gives.
abbrev pub xbd_shell_get_commands : List Bytes
xbd_shell_get_commands = codes "gcoap" ∷ codes "libcoap" ∷ []

pub xbd_shell_start : List Bytes → Prog State Unit
xbd_shell_start shell_commands = say (call (shell_run shell_commands))

pub xbd_usleep : ℕ → Prog State Unit
xbd_usleep delay = do say (printf "." []); say (call (xtimer_usleep delay))

pub xbd_ztimer_msleep : ℕ → Bool → Prog State Unit
xbd_ztimer_msleep delay debug = do
  if debug
      then (do
        modify (λ s. record s { blink = not s.blink })
        blink ← gets (λ s. s.blink)
        say (printf "%c" (num (if blink then b'#' else b' ') ∷ []))
        say (printf "%c" (num 8 ∷ [])))
      else pure tt
  say (call (ztimer_sleep delay))
