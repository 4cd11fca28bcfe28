-- ===== src/Tests/Xbd.antt =====
-- The shell for the Rust side at a concrete system.
use studio.Base.{
  ℕ, true, false, Option, none, some, [], ◌∷◌, codes, Returns, calls, call, ◌≡◌, refl, arith, Log,
}
use studio.Xbd
use studio.Xbd.Shell.{handed_on, SameVars, io_signal_handler_lem}

-- One line is waiting: its second byte is read when its first was handed on.
abbrev next_byte : Log Xbd.Call → Option ℕ
next_byte (call (Xbd.real_read fd) ∷ []) = some b'h'
next_byte (call (Xbd.real_read fd) ∷ e ∷ f ∷ []) = some b'i'
next_byte _ = none

abbrev shell_env : Xbd.Env
shell_env = record {
  board_native = true;
  read = next_byte;
  allocated = λ l. none;
  shell_default_bufsize = 128;
}

abbrev shell : Xbd.State
shell = record {
  init_async_shell_done = true;
  blink = false;
  timers = λ p. record { callback = 0; arg = 0 };
  log = [];
}

io_signal_handler_lem_example :
    Returns
      (λ _ t.
        (calls t.log ≡ Xbd.async_read_continue 0 ∷ handed_on shell_env 0 (codes "hi") [])
        × SameVars shell t)
      (Xbd.io_signal_handler shell_env 3 0 shell)
io_signal_handler_lem_example =
    io_signal_handler_lem shell_env (codes "hi") 3 0 shell (refl, (refl, refl)) (omega arith)
