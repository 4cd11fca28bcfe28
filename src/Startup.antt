-- ===== src/Startup.antt =====
-- examples/xbd-net/main/main.c: the start of the program, without the blocks behind `if (0)`. The
-- interfaces are found and set up by Gnrc, in its own state; the rest of the calls are here.
pub mod Order
use studio.Base.{
  ℕ, zero, suc, Bool, true, false, Option, none, some, List, [], ◌∷◌, if◌then◌else◌, ℤ, pos, negsuc,
  Bytes, codes, Prog, pure, gets, modify, ◌>>=◌, ◌>>◌, Event, puts, printf, call, str, Log,
}
use studio.Gnrc
use studio.Gnrc.{Netif, Found, find_ifces, set_ips}

-- A function for the Rust side, by its C function.
pub data XbdFn : Type 0 where
  usleep ztimer_msleep ztimer_set gcoap_req_send : XbdFn

pub data FileserverEvent : Type 0 where
  get_file_start get_file_end put_file_start put_file_end delete_file : FileserverEvent

pub data Method : Type 0 where
  get put match_subtree : Method

-- `coap_resource_t`, whose handler is `xbd_riot_fileserver_handler`.
pub record Resource : Type 0 where
  pub path : Bytes
  pub methods : List Method
  pub context : Bytes

pub data Call : Type 0 where
  msg_init_queue : ℕ → Call
  esp_eth_init : Call
  vfs_mount : Bytes → Call
  gcoap_register_listener : List Resource → Call
  fileserver_set_event_cb : Call
  rustmod_start : List (Bytes × XbdFn) → Call

-- `debug_eth` tells whether one of the two macros for it is defined, `eth_init` what
-- `debug_esp32_eth_init` then returns, and `module_callback` whether the callbacks are built in.
-- `vfs_default_data` is a macro of RIOT.
pub record Env : Type 0 where
  pub gnrc : Gnrc.Env
  pub debug_eth : Bool
  pub eth_init : Log Call → ℤ
  pub module_callback : Bool
  pub vfs_default_data : Bytes

-- The static variables, the state of gnrc, and the log.
pub record State : Type 0 where
  pub outer_interface : Option Netif
  pub inner_interface : Option Netif
  pub gnrc : Gnrc.State
  pub log : Log Call

abbrev pub say : Event Call → Prog State Unit
say e = modify (λ s. record s { log = e ∷ s.log })

abbrev pub ask : {A : Type 0} → Call → (Log Call → A) → Prog State A
ask c answer s = let l = call c ∷ s.log in some (answer l, record s { log = l })

-- A function of Gnrc.
abbrev pub in_gnrc : {A : Type 0} → Prog Gnrc.State A → Prog State A
in_gnrc m s = elim (m s.gnrc) [ none ↦ none | some (a, g) ↦ some (a, record s { gnrc = g }) ]

abbrev pub xbd_fns : List (Bytes × XbdFn)
xbd_fns =
    (codes "xbd_usleep", usleep)
    ∷ (codes "xbd_ztimer_msleep", ztimer_msleep)
    ∷ (codes "xbd_ztimer_set", ztimer_set)
    ∷ (codes "xbd_gcoap_req_send", gcoap_req_send)
    ∷ []

-- `res != 0`
abbrev pub is_set : ℤ → Bool
is_set (pos zero) = false
is_set (pos (suc n)) = true
is_set (negsuc n) = true

-- `_event_cb`, for the path in its context.
pub event_cb : FileserverEvent → Bytes → Prog State Unit
event_cb get_file_start path =
    say (printf "gcoap fileserver: Download started: %s\n" (str path ∷ []))
event_cb get_file_end path =
    say (printf "gcoap fileserver: Download finished: %s\n" (str path ∷ []))
event_cb put_file_start path = say (printf "gcoap fileserver: Upload started: %s\n" (str path ∷ []))
event_cb put_file_end path = say (printf "gcoap fileserver: Upload finished: %s\n" (str path ∷ []))
event_cb delete_file path = say (printf "gcoap fileserver: Delete %s\n" (str path ∷ []))

module _ (env : Env) where
  abbrev pub resources : List Resource
  resources =
      record { path = codes "/const"; methods = get ∷ match_subtree ∷ []; context = codes "/const" }
      ∷ record {
        path = codes "/vfs";
        methods = get ∷ put ∷ match_subtree ∷ [];
        context = env.vfs_default_data;
      }
      ∷ []

  init_gcoap_fileserver : Prog State Unit
  init_gcoap_fileserver = do
    say (call (vfs_mount (codes "/const")))
    say (call (gcoap_register_listener resources))
    if env.module_callback then say (call fileserver_set_event_cb) else pure tt

  -- The end of `main`, where the blocks behind `if (0)` are left out.
  serve : Prog State ℕ
  serve = do init_gcoap_fileserver; say (call (rustmod_start xbd_fns)); pure 0

  -- From the search for interfaces on.
  run_net : Prog State ℕ
  run_net = do
    f ← in_gnrc (find_ifces env.gnrc)
    modify (λ s. record s { outer_interface = f.outer; inner_interface = f.inner })
    status ← in_gnrc (set_ips env.gnrc f.outer f.inner)
    serve

  -- `failed` is whether the driver could not be initialised.
  after_eth : Bool → Prog State ℕ
  after_eth true = do say (puts "Error initializing eth devices"); pure 1
  after_eth false = run_net

  -- Where one of the macros for a driver is defined, and where not.
  with_eth : Bool → Prog State ℕ
  with_eth true = do res ← ask esp_eth_init env.eth_init; after_eth (is_set res)
  with_eth false = run_net

  pub main : Prog State ℕ
  main = do
    say (puts "@@ [xbd-net] main(): ^^")
    say (call (msg_init_queue 16))
    with_eth env.debug_eth
