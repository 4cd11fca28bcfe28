-- ===== src/Xbd/Shell.antt =====
-- examples/xbd-net/modules/minerva_xbd/shell.c: what the input handler and the start-up do.
use studio.Base.{
  ℕ, zero, suc, ◌<◌, Bool, true, false, none, some, List, [], ◌∷◌, length, Returns, Returns-then,
  calls, Log, call, inl, inr, Bool-cases, ◌≡◌, refl, ap, arith,
}
use studio.Xbd.{
  Call, real_read, async_shell_on_char, async_read_continue, async_read_setup,
  async_read_add_handler, Env, State, say, read_loop, io_signal_handler, init_native,
  xbd_async_shell_init,
}

abbrev pub SameVars : State → State → Type 0
SameVars s t =
    (t.init_async_shell_done ≡ s.init_async_shell_done)
    × (t.blink ≡ s.blink)
    × (t.timers ≡ s.timers)

module _ (env : Env) where
  -- The reads from a descriptor give these bytes, and then no more.
  abbrev pub Gives : ℕ → List ℕ → Log Call → Type 0
  Gives fd [] l = env.read (call (real_read fd) ∷ l) ≡ none
  Gives fd (c ∷ cs) l =
      (env.read (call (real_read fd) ∷ l) ≡ some c)
      × Gives fd cs (call (async_shell_on_char c) ∷ call (real_read fd) ∷ l)

  -- Each byte read and handed on, in order, and at last a NUL.
  abbrev pub handed_on : ℕ → List ℕ → List Call → List Call
  handed_on fd [] l = async_shell_on_char 0 ∷ real_read fd ∷ l
  handed_on fd (c ∷ cs) l = handed_on fd cs (async_shell_on_char c ∷ real_read fd ∷ l)

  read_loop_lem :
      (cs : List ℕ) (fuel fd : ℕ) (s : State)
      → Gives fd cs s.log
      → length cs < fuel
      → Returns
          (λ _ t. (calls t.log ≡ handed_on fd cs (calls s.log)) × SameVars s t)
          (read_loop env fuel fd s)
  unfolding read_loop
  read_loop_lem cs zero fd s g h = absurd (omega arith)
  read_loop_lem [] (suc fuel) fd s g h = rw g (refl, (refl, refl, refl))
  read_loop_lem (c ∷ cs) (suc fuel) fd s g h = rw (g.0) (
      read_loop_lem cs fuel fd
        (record s { log = call (async_shell_on_char c) ∷ call (real_read fd) ∷ s.log }) g.1
        (omega arith))

  -- With fuel for more rounds than bytes are waiting, the input handler returns: every byte went to
  -- the shell in the order of the input, then a NUL, and then the waiting for input is renewed. No
  -- variable changes.
  pub io_signal_handler_lem :
      (cs : List ℕ) (fuel fd : ℕ) (s : State)
      → Gives fd cs s.log
      → length cs < fuel
      → Returns
          (λ _ t.
            (calls t.log ≡ async_read_continue fd ∷ handed_on fd cs (calls s.log)) × SameVars s t)
          (io_signal_handler env fuel fd s)
  unfolding io_signal_handler
  io_signal_handler_lem cs fuel fd s g h =
      Returns-then (read_loop env fuel fd)
        (λ _ t. (calls t.log ≡ handed_on fd cs (calls s.log)) × SameVars s t)
        (λ _ t.
          (calls t.log ≡ async_read_continue fd ∷ handed_on fd cs (calls s.log)) × SameVars s t)
        (say (call (async_read_continue fd))) s (read_loop_lem cs fuel fd s g h)
        (λ _ t q. (ap (◌∷◌ (async_read_continue fd)) q.0, q.1))

  -- What an initialisation must have done, by the board and whether it was done before.
  abbrev pub Inits : Bool → Bool → State → ℕ → State → Type 0
  Inits false done s r t = (r ≡ 2) × (calls t.log ≡ calls s.log) × (t.init_async_shell_done ≡ done)
  Inits true true s r t = (r ≡ 1) × (calls t.log ≡ calls s.log) × (t.init_async_shell_done ≡ true)
  Inits true false s r t =
      (r ≡ 0)
      × (calls t.log ≡ async_read_add_handler 0 ∷ async_read_setup ∷ calls s.log)
      × (t.init_async_shell_done ≡ true)

  -- On the native board the first initialisation sets the handler of the standard input up, with
  -- status 0, and every later one has status 1 and makes no call. On other boards the status is 2.
  pub xbd_async_shell_init_lem :
      (s : State)
      → Returns (Inits env.board_native s.init_async_shell_done s) (xbd_async_shell_init env s)
  unfolding xbd_async_shell_init init_native
  xbd_async_shell_init_lem s = elim (Bool-cases env.board_native) [
    | inl e ↦ elim (Bool-cases s.init_async_shell_done) [
      | inl f ↦ rw (e, f) (refl, refl, refl)
      | inr f ↦ rw (e, f) (refl, refl, refl)
    ]
    | inr e ↦ rw e (refl, refl, refl)
  ]
