-- ===== src/EthMinimal/Command.antt =====
-- examples/xbd-net/modules/minerva_esp32_minimal/shell_commands.c: what `txtsnd` does.
use studio.Base.{
  ℕ, zero, suc, Bool, true, false, Option, none, some, List, [], ◌∷◌, ◌++◌, length, leb, ◌==◌,
  if◌then◌else◌, ℤ, pos, negsuc, is_neg, Bytes, Returns, Log, calls, call, ◌≡◌, refl, arith, inl,
  inr, Bool-cases,
}
use studio.Libc.{atoi}
use studio.EthMinimal.{
  Call, driver_get_address, driver_send, Env, Entry, State, src_of, print_txtsnd_usage, send_frame,
  send_from, send_to, txtsnd_on, cmd_txtsnd,
}

-- Nothing but the log has changed.
abbrev pub SameDevices : State → State → Type 0
SameDevices s t =
    (t.devices ≡ s.devices)
    × (t.buffer ≡ s.buffer)
    × (t.context ≡ s.context)
    × (t.has_callback ≡ s.has_callback)

pub same : (s : State) → SameDevices s s
same s = (refl, refl, refl, refl)

-- The device that a number names: there is one place in the array.
abbrev pub target : ℤ → List Entry → Option ℕ
target (pos zero) [] = none
target (pos zero) (entry ∷ es) = entry.dev
target (pos (suc n)) es = none
target (negsuc n) es = none

module _ (env : Env) where
  -- The device's own address, if the driver gives it.
  abbrev pub own_address : Option Bytes → Bytes
  own_address none = env.old_src
  own_address (some addr) = addr

  src_of-own : (found : Option Bytes) → src_of env found ≡ own_address found
  unfolding src_of
  src_of-own none = refl
  src_of-own (some addr) = refl

  -- The frame: the destination, the device's own address, the type, and the text.
  abbrev pub frame : Bytes → Bytes → ℕ → Log Call → Bytes
  frame dst text dev l =
      dst
      ++ (own_address (env.address (call (driver_get_address dev) ∷ l))
          ++ (env.unknown_type ++ text))

  -- What `txtsnd` must have done, by the destination and the device that it found.
  abbrev pub Sends : Option Bytes → Option ℕ → Bytes → State → ℕ → State → Type 0
  Sends none dev text s r t = (r ≡ 1) × (calls t.log ≡ calls s.log) × SameDevices s t
  Sends (some dst) none text s r t = (r ≡ 1) × (calls t.log ≡ calls s.log) × SameDevices s t
  Sends (some dst) (some dev) text s r t =
      let f = frame dst text dev s.log in
      (r ≡ (
        if is_neg (env.sent (call (driver_send dev f) ∷ call (driver_get_address dev) ∷ s.log))
        then 1
        else 0))
      × (calls t.log ≡ driver_send dev f ∷ driver_get_address dev ∷ calls s.log)
      × SameDevices s t

  -- What a command line asks for.
  abbrev pub Serves : List Bytes → State → ℕ → State → Type 0
  Serves (iface ∷ addr ∷ text ∷ []) s r t =
      Sends (env.addr_from_str addr) (target (atoi iface) s.devices) text s r t
  Serves _ s r t = (r ≡ 1) × (calls t.log ≡ calls s.log) × SameDevices s t

  send_frame_lem :
      (dst text : Bytes) (dev : ℕ) (s : State)
      → Returns (λ r t. Sends (some dst) (some dev) text s r t) (send_frame env dst text dev s)
  unfolding send_frame
  send_frame_lem dst text dev s =
      rw (← src_of-own (env.address (call (driver_get_address dev) ∷ s.log)))
        (elim (Bool-cases (
          is_neg (
            env.sent (
              call (
                driver_send dev (
                  dst
                  ++ (src_of env (env.address (call (driver_get_address dev) ∷ s.log))
                      ++ (env.unknown_type ++ text))))
              ∷ call (driver_get_address dev)
              ∷ s.log)))) [ inl e ↦ rw e (refl, refl, same s) | inr e ↦ rw e (refl, refl, same s) ])

  send_from_lem :
      (cmd dst text : Bytes) (dev : Option ℕ) (s : State)
      → Returns (λ r t. Sends (some dst) dev text s r t) (send_from env cmd dst text dev s)
  unfolding send_from print_txtsnd_usage
  send_from_lem cmd dst text none s = (refl, refl, same s)
  send_from_lem cmd dst text (some dev) s = send_frame_lem dst text dev s

  rejected :
      (dst : Option Bytes) (text : Bytes) (s t : State)
      → calls t.log ≡ calls s.log
      → SameDevices s t
      → Sends dst none text s 1 t
  rejected none text s t e h = (refl, e, h)
  rejected (some dst) text s t e h = (refl, e, h)

  txtsnd_on_lem :
      (cmd : Bytes) (iface : ℤ) (addr text : Bytes) (entry : Entry) (es : List Entry) (b : Bytes)
      (c : ℕ → Option ℕ) (h : ℕ → Bool) (l : Log Call)
      → let s : State = record {
        devices = entry ∷ es;
        buffer = b;
        context = c;
        has_callback = h;
        log = l;
      } in
        Returns
          (λ r t. Sends (env.addr_from_str addr) (target iface (entry ∷ es)) text s r t)
          (txtsnd_on env cmd iface addr text s)
  unfolding txtsnd_on send_to print_txtsnd_usage
  txtsnd_on_lem cmd (negsuc n) addr text entry es b c h l =
      rejected (env.addr_from_str addr) text _ _ refl (refl, refl, refl, refl)
  txtsnd_on_lem cmd (pos (suc n)) addr text entry es b c h l =
      let e : leb 1 (suc n) ≡ true = ground arith in
      rw e (rejected (env.addr_from_str addr) text _ _ refl (refl, refl, refl, refl))
  txtsnd_on_lem cmd (pos zero) addr text entry es b c h l = to_lem (env.addr_from_str addr)
    where
      s : State
      s = record { devices = entry ∷ es; buffer = b; context = c; has_callback = h; log = l }

      to_lem :
          (found : Option Bytes)
          → Returns (λ r t. Sends found entry.dev text s r t) (send_to env cmd 0 text found s)
      to_lem none = (refl, refl, same s)
      to_lem (some dst) = send_from_lem cmd dst text entry.dev s

  -- With one place in the registry, `txtsnd` returns on every command line that has a name. Three
  -- arguments are served: if the first is the number 0, the second an address, and a device is
  -- registered, the driver is asked for its address and then to send one frame, from that address,
  -- of the type ETHERTYPE_UNKNOWN and with the text; the status is 1 exactly if the driver fails.
  -- Every other line has status 1 and makes no call. The registry is left alone.
  pub cmd_txtsnd_lem :
      (cmd : Bytes) (args : List Bytes) (entry : Entry) (b : Bytes) (c : ℕ → Option ℕ)
      (h : ℕ → Bool) (l : Log Call)
      → let s : State = record {
        devices = entry ∷ [];
        buffer = b;
        context = c;
        has_callback = h;
        log = l;
      } in
        Returns (λ r t. Serves args s r t) (cmd_txtsnd env (cmd ∷ args) s)
  unfolding cmd_txtsnd print_txtsnd_usage
  cmd_txtsnd_lem cmd [] entry b c h l = (refl, refl, (refl, refl, refl, refl))
  cmd_txtsnd_lem cmd (x ∷ []) entry b c h l = (refl, refl, (refl, refl, refl, refl))
  cmd_txtsnd_lem cmd (x ∷ y ∷ []) entry b c h l = (refl, refl, (refl, refl, refl, refl))
  cmd_txtsnd_lem cmd (x ∷ y ∷ z ∷ []) entry b c h l =
      txtsnd_on_lem cmd (atoi x) y z entry [] b c h l
  cmd_txtsnd_lem cmd (x ∷ y ∷ z ∷ w ∷ rest) entry b c h l =
      let e : (length (cmd ∷ x ∷ y ∷ z ∷ w ∷ rest) == 4) ≡ false = ground arith in
      rw e (refl, refl, (refl, refl, refl, refl))
