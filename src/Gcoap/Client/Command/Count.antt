-- ===== src/Gcoap/Client/Command/Count.antt =====
-- examples/xbd-net/modules/minerva_gcoap/client.c: every command keeps the count of requests true.
use studio.Base.{
  ℕ, ◌+◌, Bool, true, false, Option, none, some, List, ◌∷◌, length, get_elem?, ltb, leb, ◌==◌,
  if◌then◌else◌, Bytes, codes, str_eq, pure, ◌>>◌, OnReturn-bind, OnReturn-lift, puts,
}
use studio.Lwip.Sock.{Endpoint}
use studio.Gcoap.{MsgType, con, Method, Pdu, Env, say}
use studio.Gcoap.Server.{notify_observers}
use studio.Gcoap.Server.Count.{notify_observers-Counts, server_init-Counts}
use studio.Gcoap.Client.Count.{send-Counts}
use studio.Gcoap.Client.Config.Count.{usage-Counts, cmd_info-Counts, cmd_proxy-Counts}
use studio.Gcoap.Count.{IsCount, Counts, lift_lem, bind_lem, Counts-if}
use studio.Gcoap.Client.{empty, send}
use studio.Gcoap.Client.Command.{
  method_usage, bad_path, path_arg, payload_arg, has_confirm, is_ping, fits_method, default_type,
  find_method, prepare_proxied, prepare, send_message, send_payload, send_prepared, request_method,
  cmd_at, cmd_method, gcoap_cli_cmd,
}

module _ (env : Env) (base mark : ℕ) where
  send_message-Counts :
      (pdu : Pdu) (len : ℕ) (addr : Bytes) → Counts env base mark (send_message env pdu len addr)
  unfolding send_message
  send_message-Counts pdu len addr s v =
      bind_lem env base mark (send env pdu len addr)
        (λ n. do
          if n == 0 then say (puts "gcoap_cli: msg send failed") else notify_observers env
          pure 0)
        (send-Counts env base mark pdu len addr) (λ n. told n) (record s { log = _ ∷ s.log }) v
    where
      told :
          (n : ℕ)
          → Counts env base mark {A = ℕ} (do
            if n == 0 then say (puts "gcoap_cli: msg send failed") else notify_observers env
            pure 0)
      told n s v =
          OnReturn-bind
            (if n == 0 then say (puts "gcoap_cli: msg send failed") else notify_observers env)
            (λ _ t. IsCount env base mark t) (λ _ t. IsCount env base mark t) (λ _. pure 0) s
            (Counts-if env base mark (n == 0) _ _ (λ s v. v) (notify_observers-Counts env base mark)
              s v)
            (λ _ t w. w)

  send_payload-Counts :
      (pdu : Pdu) (text addr : Bytes) → Counts env base mark (send_payload env pdu text addr)
  unfolding send_payload
  send_payload-Counts pdu text addr =
      Counts-if env base mark (empty text) _ _ (send_message-Counts pdu _ addr) (
        Counts-if env base mark (leb (length text) (env.room pdu)) _ _
          (send_message-Counts _ _ addr) (λ s v. v))

  method_usage-Counts : (argv : List Bytes) → Counts env base mark (method_usage argv)
  unfolding method_usage
  method_usage-Counts argv s v =
      OnReturn-lift (λ _ t. IsCount env base mark t) (get_elem? argv 0) _ s (λ name. v)

  send_prepared-Counts :
      (argv : List Bytes) (t : MsgType) (addr text : Bytes) (found : Option (Bytes × ℕ × Pdu))
      → Counts env base mark (send_prepared env argv t addr text found)
  unfolding send_prepared
  send_prepared-Counts argv t addr text none s v = usage-Counts env base mark argv s v
  send_prepared-Counts argv t addr text (some (uri, uri_len, pdu)) s v =
      send_payload-Counts _ text addr _ v

  prepare_proxied-Counts :
      (m : Method) (path : Option Bytes) (found : Bool × Endpoint)
      → Counts env base mark (prepare_proxied env m path found)
  unfolding prepare_proxied
  prepare_proxied-Counts m path (false, ep) s v = v
  prepare_proxied-Counts m path (true, ep) s v =
      OnReturn-lift (λ _ t. IsCount env base mark t) path _ s (λ text. v)

  prepare-Counts :
      (m : Method) (path : Option Bytes) (addr : Bytes)
      → Counts env base mark (prepare env m path addr)
  unfolding prepare
  prepare-Counts m path addr s v =
      Counts-if env base mark s.proxied
        (λ s'. prepare_proxied env m path (env.name2ep s'.log addr env.old_remote) s') _
        (λ s'. prepare_proxied-Counts m path _ s') (λ s v. v) s v

  request_method-Counts :
      (argv : List Bytes) (m : Method) (t : MsgType) (addr : Bytes) (path : Option Bytes)
      (text : Bytes)
      → Counts env base mark (request_method env argv m t addr path text)
  unfolding request_method
  request_method-Counts argv m t addr path text =
      Counts-if env base mark (bad_path path) _ _ (λ s v. usage-Counts env base mark argv _ v)
        (bind_lem env base mark (prepare env m path addr) (send_prepared env argv t addr text)
          (prepare-Counts m path addr) (send_prepared-Counts argv t addr text))

  path_arg-Counts :
      (argv : List Bytes) (m : Method) (apos : ℕ) → Counts env base mark (path_arg argv m apos)
  unfolding path_arg
  path_arg-Counts argv m apos =
      Counts-if env base mark (is_ping m) _ _ (λ s v. v)
        (λ s v.
          OnReturn-lift (λ _ t. IsCount env base mark t) (get_elem? argv (apos + 1)) _ s
            (λ path. v))

  payload_arg-Counts : (argv : List Bytes) (apos : ℕ) → Counts env base mark (payload_arg argv apos)
  unfolding payload_arg
  payload_arg-Counts argv apos =
      Counts-if env base mark (length argv == apos + 3) _ _
        (lift_lem env base mark (get_elem? argv (apos + 2))) (λ s v. v)

  has_confirm-Counts : (argv : List Bytes) → Counts env base mark (has_confirm argv)
  unfolding has_confirm
  has_confirm-Counts argv =
      Counts-if env base mark (ltb 2 (length argv)) _ _
        (λ s v. OnReturn-lift (λ _ t. IsCount env base mark t) (get_elem? argv 2) _ s (λ text. v))
        (λ s v. v)

  cmd_at-Counts :
      (argv : List Bytes) (m : Method) (t : MsgType) (apos : ℕ)
      → Counts env base mark (cmd_at env argv m t apos)
  unfolding cmd_at
  cmd_at-Counts argv m t apos =
      Counts-if env base mark (fits_method m (length argv) apos) _ _
        (λ s v.
          OnReturn-lift (λ _ u. IsCount env base mark u) (get_elem? argv apos) _ s
            (λ addr.
              bind_lem env base mark (path_arg argv m apos) _ (path_arg-Counts argv m apos)
                (λ path.
                  bind_lem env base mark (payload_arg argv apos) _ (payload_arg-Counts argv apos)
                    (λ text. request_method-Counts argv m t addr path text))
                s v))
        (method_usage-Counts argv)

  cmd_method-Counts :
      (argv : List Bytes) (found : Option Method) → Counts env base mark (cmd_method env argv found)
  unfolding cmd_method
  cmd_method-Counts argv none = usage-Counts env base mark argv
  cmd_method-Counts argv (some m) =
      bind_lem env base mark (has_confirm argv) _ (has_confirm-Counts argv) (λ confirmed.
        Counts-if env base mark confirmed _ _ (cmd_at-Counts argv m con 3)
          (cmd_at-Counts argv m (default_type m) 2))

  -- Every command line of the client keeps the count true.
  pub gcoap_cli_cmd-Counts : (argv : List Bytes) → Counts env base mark (gcoap_cli_cmd env argv)
  unfolding gcoap_cli_cmd
  gcoap_cli_cmd-Counts argv =
      Counts-if env base mark (length argv == 1) _ _ (usage-Counts env base mark argv) (λ s v.
        OnReturn-lift (λ _ t. IsCount env base mark t) (get_elem? argv 1) _ s
          (λ verb.
            Counts-if env base mark (str_eq verb (codes "server")) _ _
              (server_init-Counts env base mark)
              (Counts-if env base mark (str_eq verb (codes "info")) _ _
                (cmd_info-Counts env base mark)
                (Counts-if env base mark (str_eq verb (codes "proxy")) _ _
                  (cmd_proxy-Counts env base mark argv)
                  (cmd_method-Counts argv (find_method verb))))
              s v))
