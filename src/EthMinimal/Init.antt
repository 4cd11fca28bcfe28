-- ===== src/EthMinimal/Init.antt =====
-- examples/xbd-net/modules/minerva_esp32_minimal: `cmd_ifconfig` (shell_commands.c), and the
-- initialisation that ends with it (netdev_eth_minimal.c).
use studio.Base.{
  ℕ, zero, suc, Bool, true, Option, none, some, [], ◌∷◌, ◌==◌, if◌then◌else◌, ℤ, pos, negsuc, Bytes,
  Returns, ◌>>◌, pure, Log, call, printf, puts, num, str, ◌≡◌, refl,
}
use studio.EthMinimal.{
  Call, driver_get_address, driver_init, Env, State, ifconfig_list, list_from, cmd_ifconfig,
  minerva_init, print_address, assert, is_zero, say, update,
}
use studio.EthMinimal.Command.{SameDevices, same}

module _ (env : Env) where
  -- The log when the address of a device is asked for, on a log `l` before.
  abbrev asked : ℕ → Log Call → Log Call
  asked dev l = call (driver_get_address dev) ∷ printf "Iface %3d  HWaddr: " (num 0 ∷ []) ∷ l

  -- What `ifconfig` must have done, by the registered device and the address that its driver gave.
  abbrev pub Lists : Option ℕ → Option Bytes → State → Option (ℕ × State) → Type 0
  Lists none addr s r = r ≡ none
  Lists (some dev) none s r = r ≡ none
  Lists (some dev) (some addr) s r =
      Returns
        (λ status t.
          (status ≡ 0)
          × (t.log ≡ printf "%s\n" (str (env.addr_to_str addr) ∷ []) ∷ asked dev s.log)
          × SameDevices s t)
        r

  abbrev answer : Option ℕ → Log Call → Option Bytes
  answer none l = none
  answer (some dev) l = env.address (asked dev l)

  shown_lem :
      (found : Option Bytes) (dev : ℕ) (s : State)
      → Lists
          (some dev)
          found
          s
          ((do (do print_address env found; pure tt); pure 0) (record s { log = asked dev s.log }))
  unfolding print_address assert
  shown_lem none dev s = refl
  shown_lem (some addr) dev s = (refl, refl, same s)

  -- `ifconfig` prints the address of the registered device. If there is none, a NULL pointer is
  -- read, and if the driver does not know the address, the assertion fails.
  pub cmd_ifconfig_lem :
      (dev : Option ℕ) (k : Bool) (b : Bytes) (c : ℕ → Option ℕ) (h : ℕ → Bool) (l : Log Call)
      → let s : State = record {
        devices = record { dev = dev; has_handler = k } ∷ [];
        buffer = b;
        context = c;
        has_callback = h;
        log = l;
      } in
        Lists dev (answer dev l) s (cmd_ifconfig env s)
  unfolding cmd_ifconfig list_from ifconfig_list
  cmd_ifconfig_lem none k b c h l = refl
  cmd_ifconfig_lem (some dev) k b c h l = shown_lem (env.address (asked dev l)) dev _

  -- The state once a driver was initialised.
  abbrev pub started : ℕ → State → State
  started dev s = record s {
    has_callback = λ e. if e == dev then true else s.has_callback e;
    log = puts "ok" ∷ call (driver_init dev) ∷ s.log;
  }

  -- What an initialisation must have done, by the driver's answer and the registered device.
  abbrev pub Inits : ℤ → ℕ → Option ℕ → State → Option (ℕ × State) → Type 0
  Inits (pos zero) dev registered s r =
      Lists registered (answer registered (started dev s).log) (started dev s) r
  Inits (pos (suc n)) dev registered s r = r ≡ none
  Inits (negsuc n) dev registered s r = r ≡ none

  inits_lem :
      (res : ℤ) (dev : ℕ) (registered : Option ℕ) (k : Bool) (b : Bytes) (c : ℕ → Option ℕ)
      (h : ℕ → Bool) (l : Log Call)
      → let s : State = record {
        devices = record { dev = registered; has_handler = k } ∷ [];
        buffer = b;
        context = c;
        has_callback = h;
        log = l;
      } in
        Inits res dev registered s (
          (do
            if is_zero res then say (puts "ok") else say (puts "oh no")
            assert (is_zero res)
            cmd_ifconfig env)
            (record s { has_callback = update h dev true; log = call (driver_init dev) ∷ l }))
  unfolding assert
  inits_lem (pos zero) dev registered k b c h l = cmd_ifconfig_lem registered k b _ _ _
  inits_lem (pos (suc n)) dev registered k b c h l = refl
  inits_lem (negsuc n) dev registered k b c h l = refl

  -- `minerva_netdev_eth_minimal_init` sets the device's callback and initialises its driver. If that
  -- answers 0, it has printed the address of the device in the registry and returns 0, for which
  -- there must be one whose driver knows its address. Any other answer makes the assertion fail.
  pub minerva_init_lem :
      (dev : ℕ) (registered : Option ℕ) (k : Bool) (b : Bytes) (c : ℕ → Option ℕ) (h : ℕ → Bool)
      (l : Log Call)
      → let s : State = record {
        devices = record { dev = registered; has_handler = k } ∷ [];
        buffer = b;
        context = c;
        has_callback = h;
        log = l;
      } in
        Inits
          (env.initialised (call (driver_init dev) ∷ l))
          dev
          registered
          s
          (minerva_init env dev s)
  unfolding minerva_init
  minerva_init_lem dev registered k b c h l =
      inits_lem (env.initialised (call (driver_init dev) ∷ l)) dev registered k b c h l
