-- ===== src/EthMinimal.antt =====
-- examples/xbd-net/modules/minerva_esp32_minimal: the registry of Ethernet devices and their events
-- (netdev_eth_minimal.c) and the shell's commands for them (shell_commands.c), on a target where
-- `size_t` and `unsigned` have 32 bits. A device is known by the value of its pointer. A failed
-- `assert` is `none`, as an access outside an object is.
pub mod Registry
pub mod Receive
pub mod Command
pub mod Init
pub mod Keeps
use studio.Base.{
  ℕ, zero, suc, ◌+◌, ◌-◌, ◌%◌, ◌^◌, Bool, true, false, not, ◌||◌, Option, none, some, List, [], ◌∷◌,
  ◌++◌, length, get_elem?, set, take, drop, ltb, leb, ◌==◌, if◌then◌else◌, ℤ, pos, negsuc, is_neg,
  is_nonpos, Bytes, Prog, pure, lift, gets, modify, ◌>>=◌, ◌>>◌, Event, puts, printf, od_hex_dump,
  call, num, int, str, Log,
}
use studio.Libc.{atoi}

pub data NetdevEvent : Type 0 where
  isr rx_complete other : NetdevEvent

-- The calls; `event_post` has the place of the entry whose event is posted.
pub data Call : Type 0 where
  driver_recv : ℕ → Call
  driver_isr : ℕ → Call
  driver_init : ℕ → Call
  driver_get_address : ℕ → Call
  driver_send : ℕ → Bytes → Call
  event_post : ℕ → Call

-- `entry_ptr` is the value of a pointer into the array.
-- `received` is what a driver wrote into the buffer, `none` for a negative result. `address` is what
-- a driver answers for NETOPT_ADDRESS, and `old_src` what the header's field holds without it.
-- `addr_to_str` and `addr_from_str` are those of l2util. `unknown_type` are the two bytes of
-- ETHERTYPE_UNKNOWN in network order.
pub record Env : Type 0 where
  pub entry_ptr : Option ℕ → ℕ
  pub received : Log Call → Option Bytes
  pub initialised : Log Call → ℤ
  pub address : Log Call → Option Bytes
  pub old_src : Bytes
  pub sent : Log Call → ℤ
  pub addr_to_str : Bytes → Bytes
  pub addr_from_str : Bytes → Option Bytes
  pub unknown_type : Bytes

-- `device_reg_entry_t`: the device, and whether the event has its handler.
pub record Entry : Type 0 where
  pub dev : Option ℕ
  pub has_handler : Bool

-- `devices` and `buffer` are the static arrays. `context` is `dev->context` of each device, as a
-- place in the array, and `has_callback` tells whether its `event_callback` is `_event_cb`.
pub record State : Type 0 where
  pub devices : List Entry
  pub buffer : Bytes
  pub context : ℕ → Option ℕ
  pub has_callback : ℕ → Bool
  pub log : Log Call

-- NETDEV_ETH_MINIMAL_NUMOF, of init_dev.h
abbrev pub numof : ℕ
numof = 1

-- ETHERNET_MAX_LEN
abbrev pub ethernet_max_len : ℕ
ethernet_max_len = 1518

-- sizeof(ethernet_hdr_t)
abbrev pub header_len : ℕ
header_len = 14

abbrev pub say : Event Call → Prog State Unit
say e = modify (λ s. record s { log = e ∷ s.log })

abbrev pub ask : {A : Type 0} → Call → (Log Call → A) → Prog State A
ask c answer s = let l = call c ∷ s.log in some (answer l, record s { log = l })

abbrev pub update {ℓ} : {A : Type ℓ} → (ℕ → A) → ℕ → A → ℕ → A
update f d v e = if e == d then v else f e

abbrev pub is_zero : ℤ → Bool
is_zero (pos zero) = true
is_zero (pos (suc n)) = false
is_zero (negsuc n) = false

-- A write to an array, which C leaves undefined out of its bounds.
abbrev pub write : List Entry → ℕ → Entry → Option (List Entry)
write es i e = if ltb i (length es) then some (set es i e) else none

-- What a driver wrote, in front of what the buffer held.
abbrev pub fill : Bytes → Bytes → Bytes
fill frame old = frame ++ drop (length frame) old

-- `assert`
assert : Bool → Prog State Unit
assert true = pure tt
assert false = lift none

-- `od_hex_dump` of the first bytes of an object.
dump : Bytes → ℕ → Prog State Unit
dump payload n = if leb n (length payload) then say (od_hex_dump (take n payload)) else lift none

-- `data_len -= sizeof(ethernet_hdr_t)`, as `unsigned` and `size_t`.
abbrev pub payload_len : ℕ → ℕ
payload_len data_len = (data_len + 2 ^ 32 - header_len) % 2 ^ 32

unfoldable pub netdev_register_signal : ℕ → ℕ → ℕ → Prog State Unit
netdev_register_signal dev type index = if ltb numof index then pure tt else do
  say (printf "Device %d registered (type: %d)\n" (num index ∷ num type ∷ []))
  modify (λ s. record s { context = update s.context dev (some index) })
  es ← gets (λ s. s.devices)
  es' ← lift (write es index (record { dev = some dev; has_handler = true }))
  modify (λ s. record s { devices = es' })

-- `event->handler(event)`, for the event of an entry.
unfoldable pub isr_event_handler : ℕ → Prog State Unit
isr_event_handler index = do
  es ← gets (λ s. s.devices)
  entry ← lift (get_elem? es index)
  dev ← lift entry.dev
  say (call (driver_isr dev))

module _ (env : Env) where
  print_frame : ℕ → Prog State Unit
  print_frame data_len = do
    b ← gets (λ s. s.buffer)
    say (printf "Dest. addr.: %s\n" (str (env.addr_to_str (take 6 b)) ∷ []))
    say (printf "Src. addr.: %s\n" (str (env.addr_to_str (take 6 (drop 6 b))) ∷ []))
    say (printf "Payload (%u bytes): \n" (num (payload_len data_len) ∷ []))
    dump (drop header_len b) (payload_len data_len)

  recv_frame : Option Bytes → Prog State Unit
  recv_frame none = pure tt
  recv_frame (some frame) = do
    modify (λ s. record s { buffer = fill frame s.buffer })
    print_frame (length frame)

  -- `_recv`
  pub recv : ℕ → Prog State Unit
  recv dev = do say (printf "\n" []); frame ← ask (driver_recv dev) env.received; recv_frame frame

  on_event : NetdevEvent → ℕ → Option ℕ → Prog State Unit
  on_event isr dev device = do index ← lift device; say (call (event_post index))
  on_event rx_complete dev device = recv dev
  on_event other dev device = pure tt

  -- `_event_cb`
  pub event_cb : ℕ → NetdevEvent → Prog State Unit
  event_cb dev event = do
    device ← gets (λ s. s.context dev)
    say (printf "@@ _event_cb(): dev: %p\n" (num dev ∷ []))
    say (printf "@@ _event_cb(): device: %p\n" (num (env.entry_ptr device) ∷ []))
    on_event event dev device

  -- `printf("%s")` of the address, which must have been read.
  print_address : Option Bytes → Prog State Unit
  print_address none = assert false
  print_address (some addr) = say (printf "%s\n" (str (env.addr_to_str addr) ∷ []))

  ifconfig_list : ℕ → Prog State Unit
  ifconfig_list idx = do
    es ← gets (λ s. s.devices)
    entry ← lift (get_elem? es idx)
    say (printf "Iface %3d  HWaddr: " (num idx ∷ []))
    dev ← lift entry.dev
    addr ← ask (driver_get_address dev) env.address
    print_address addr

  -- The loop of `cmd_ifconfig`, with the rounds left.
  list_from : ℕ → ℕ → Prog State Unit
  list_from zero i = pure tt
  list_from (suc n) i = do ifconfig_list i; list_from n (suc i)

  pub cmd_ifconfig : Prog State ℕ
  cmd_ifconfig = do list_from numof 0; pure 0

  -- `minerva_netdev_eth_minimal_init`, with the function of the same name for devices.
  pub minerva_init : ℕ → Prog State ℕ
  minerva_init dev = do
    modify (λ s. record s { has_callback = update s.has_callback dev true })
    res ← ask (driver_init dev) env.initialised
    if is_zero res then say (puts "ok") else say (puts "oh no")
    assert (is_zero res)
    cmd_ifconfig

  print_txtsnd_usage : Bytes → Prog State ℕ
  print_txtsnd_usage cmd = do
    say (printf "usage: %s <iface> <addr> <text>\n" (str cmd ∷ []))
    pure 1

  -- The header's `src`.
  src_of : Option Bytes → Bytes
  src_of none = env.old_src
  src_of (some addr) = addr

  send_frame : Bytes → Bytes → ℕ → Prog State ℕ
  send_frame dst text dev = do
    src ← ask (driver_get_address dev) env.address
    res ← ask (driver_send dev (dst ++ (src_of src ++ (env.unknown_type ++ text)))) env.sent
    if is_neg res
        then (do say (puts "txtsnd: Could not send"); pure 1)
        else do say (puts "Successfully sent"); pure 0

  -- `_devices[iface].dev`, if there is a device.
  send_from : Bytes → Bytes → Bytes → Option ℕ → Prog State ℕ
  send_from cmd dst text none = print_txtsnd_usage cmd
  send_from cmd dst text (some dev) = send_frame dst text dev

  send_to : Bytes → ℕ → Bytes → Option Bytes → Prog State ℕ
  send_to cmd iface text none = do say (puts "Could not parse address"); print_txtsnd_usage cmd
  send_to cmd iface text (some dst) = do
    es ← gets (λ s. s.devices)
    entry ← lift (get_elem? es iface)
    send_from cmd dst text entry.dev

  -- `iface` as it was read, before its range is checked.
  txtsnd_on : Bytes → ℤ → Bytes → Bytes → Prog State ℕ
  txtsnd_on cmd (negsuc n) addr text = do
    say (printf "unknown interface %d\n" (int (negsuc n) ∷ []))
    print_txtsnd_usage cmd
  txtsnd_on cmd (pos iface) addr text =
      if leb numof iface
      then (do say (printf "unknown interface %d\n" (int (pos iface) ∷ [])); print_txtsnd_usage cmd)
      else send_to cmd iface text (env.addr_from_str addr)

  pub cmd_txtsnd : List Bytes → Prog State ℕ
  cmd_txtsnd argv =
      if length argv == 4
      then (do
        cmd ← lift (get_elem? argv 0)
        iface ← lift (get_elem? argv 1)
        addr ← lift (get_elem? argv 2)
        text ← lift (get_elem? argv 3)
        txtsnd_on cmd (atoi iface) addr text)
      else do cmd ← lift (get_elem? argv 0); print_txtsnd_usage cmd
