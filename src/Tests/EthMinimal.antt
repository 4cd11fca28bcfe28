-- ===== src/Tests/EthMinimal.antt =====
-- The registry of Ethernet devices at a concrete system: one device.
use studio.Base.{
  ℕ, true, Option, none, some, [], ◌∷◌, replicate, pos, Bytes, codes, Returns, calls, ◌≡◌, refl,
  arith, ◌==◌, if◌then◌else◌,
}
use studio.EthMinimal
use studio.EthMinimal.Registry.{IsValid, here, Reach-serves}
use studio.EthMinimal.Receive.{Receives, recv_lem}
use studio.EthMinimal.Command.{Serves, cmd_txtsnd_lem}

abbrev frame : Bytes
frame = 1 ∷ 2 ∷ 3 ∷ 4 ∷ 5 ∷ 6 ∷ 7 ∷ 8 ∷ 9 ∷ 10 ∷ 11 ∷ 12 ∷ 8 ∷ 0 ∷ 42 ∷ []

abbrev env : EthMinimal.Env
env = record {
  entry_ptr = λ i. 4096;
  received = λ l. some frame;
  initialised = λ l. pos 0;
  address = λ l. some (2 ∷ 2 ∷ 2 ∷ 2 ∷ 2 ∷ 2 ∷ []);
  old_src = [];
  sent = λ l. pos 20;
  addr_to_str = λ b. codes "02:02:02:02:02:02";
  addr_from_str = λ text. some (1 ∷ 1 ∷ 1 ∷ 1 ∷ 1 ∷ 1 ∷ []);
  unknown_type = 0 ∷ 0 ∷ [];
}

-- Device 5 has the only place.
abbrev entry : EthMinimal.Entry
entry = record { dev = some 5; has_handler = true }

abbrev context : ℕ → Option ℕ
context d = if d == 5 then some 0 else none

abbrev running : Bytes → EthMinimal.State
running b = record {
  devices = entry ∷ [];
  buffer = b;
  context = context;
  has_callback = λ d. true;
  log = [];
}

running-IsValid : (b : Bytes) → IsValid (running b)
running-IsValid b = record { sized = refl; known = λ d i e. ground arith }

Reach-serves_example :
    Returns
      (λ _ t. calls t.log ≡ EthMinimal.event_post 0 ∷ [])
      (EthMinimal.event_cb env 5 EthMinimal.isr (running []))
    × Returns
        (λ _ u. calls u.log ≡ EthMinimal.driver_isr 5 ∷ [])
        (EthMinimal.isr_event_handler 0 (running []))
Reach-serves_example = Reach-serves env 5 0 (running-IsValid []) here refl here

abbrev buffer : Bytes
buffer = replicate 1518 0

recv_lem_example :
    Returns
      (λ _ t. Receives env 5 frame (running buffer) t)
      (EthMinimal.recv env 5 (running buffer))
recv_lem_example = recv_lem env 5 (running buffer) frame refl (omega arith) (omega arith) refl

cmd_txtsnd_lem_example :
    Returns
      (λ r t. Serves env (codes "0" ∷ codes "01:01:01:01:01:01" ∷ codes "hi" ∷ []) (running []) r t)
      (EthMinimal.cmd_txtsnd env
        (codes "txtsnd" ∷ codes "0" ∷ codes "01:01:01:01:01:01" ∷ codes "hi" ∷ [])
        (running []))
cmd_txtsnd_lem_example =
    cmd_txtsnd_lem env (codes "txtsnd") (codes "0" ∷ codes "01:01:01:01:01:01" ∷ codes "hi" ∷ [])
      entry [] context (λ d. true) []
