-- ===== src/Xbd/Timers.antt =====
-- examples/xbd-net/modules/minerva_xbd/xbd.c: what the timers for the Rust side do.
use studio.Base.{ℕ, Option, none, some, ◌∷◌, ◌==◌, if◌then◌else◌, Returns, calls, call, ◌≡◌, refl}
use studio.Xbd.{calloc, ztimer_set, Env, State, set_timer, xbd_ztimer_set}

module _ (env : Env) (delay cb arg : ℕ) where
  -- What must have been done, by the pointer that was allocated.
  abbrev pub Sets : Option ℕ → State → Option (ℕ × State) → Type 0
  Sets none s r = r ≡ none
  Sets (some p) s r =
      Returns
        (λ timeout t.
          (timeout ≡ p)
          × (calls t.log ≡ ztimer_set p delay ∷ calloc ∷ calls s.log)
          × ((q : ℕ)
              → t.timers q ≡ (if q == p then record { callback = cb; arg = arg } else s.timers q))
          × (t.blink ≡ s.blink)
          × (t.init_async_shell_done ≡ s.init_async_shell_done))
        r

  sets_lem :
      (found : Option ℕ) (s : State)
      → Sets found s (set_timer env delay cb arg found (record s { log = call calloc ∷ s.log }))
  unfolding set_timer
  sets_lem none s = refl
  sets_lem (some p) s = (refl, refl, λ q. refl, refl, refl)

  -- A timer that could be allocated gets the callback and its argument before it is set, for the
  -- delay that was asked for, and its pointer is handed out; no other timer changes. If there is no
  -- memory, a NULL pointer is written through.
  pub xbd_ztimer_set_lem :
      (s : State) → Sets (env.allocated (call calloc ∷ s.log)) s (xbd_ztimer_set env delay cb arg s)
  unfolding xbd_ztimer_set
  xbd_ztimer_set_lem s = sets_lem (env.allocated (call calloc ∷ s.log)) s
