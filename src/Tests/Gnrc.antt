-- ===== src/Tests/Gnrc.antt =====
-- The border router and the start of the program at a concrete system: two interfaces.
use studio.Base.{ℕ, true, false, Option, none, some, [], ◌∷◌, pos, negsuc, codes, Returns, ◌≡◌}
use studio.Gnrc
use studio.Gnrc.{Netif}
use studio.Gnrc.Search.{measured, first, is_ethernet, is_other, OnlyReads, find_ifces_lem}
use studio.Gnrc.Setup.{Sets, set_ips_lem}
use studio.Startup
use studio.Startup.Order.{Starts, main_lem}

abbrev tap : Netif
tap = record { ptr = 4096; pid = 6 }

abbrev esp_now : Netif
esp_now = record { ptr = 8192; pid = 7 }

abbrev mtu_of : ℕ → Option ℕ
mtu_of (ℕ.suc (ℕ.suc (ℕ.suc (ℕ.suc (ℕ.suc (ℕ.suc ℕ.zero)))))) = some 1500
mtu_of _ = some 250

abbrev env : Gnrc.Env
env = record {
  netifs = esp_now ∷ tap ∷ [];
  max_pdu_size = mtu_of;
  old_mtu = 0;
  first_addr = λ l. codes "fe80::1";
  br_ipv6_addr = some (codes "fd00::1", 64);
  br_ipv6_def_rt = some (codes "fd00::2");
  br_ipv6_prefix = codes "fd01::";
  addr_from_str = λ text. text;
  set_aiid = λ prefix iid. iid;
  addr_added = λ l. pos 0;
  route_added = λ l. negsuc 0;
  iid = λ l. some (2 ∷ []);
}

abbrev booted : Gnrc.State
booted = record { log = [] }

find_ifces_lem_example :
    Returns
      (λ f t.
        (f.outer ≡ first is_ethernet (measured env 0 (esp_now ∷ tap ∷ [])))
        × (f.inner ≡ first is_other (measured env 0 (esp_now ∷ tap ∷ [])))
        × OnlyReads booted t)
      (Gnrc.find_ifces env booted)
find_ifces_lem_example = find_ifces_lem env booted

set_ips_lem_example :
    Returns
      (Sets env (some tap) (some esp_now) booted)
      (Gnrc.set_ips env (some tap) (some esp_now) booted)
set_ips_lem_example = set_ips_lem env (some tap) (some esp_now) booted

abbrev startup_env : Startup.Env
startup_env = record {
  gnrc = env;
  debug_eth = true;
  eth_init = λ l. pos 0;
  module_callback = true;
  vfs_default_data = codes "/nvm0";
}

abbrev powered : Startup.State
powered = record { outer_interface = none; inner_interface = none; gnrc = booted; log = [] }

main_lem_example :
    Returns (Starts startup_env true false powered) (Startup.main startup_env powered)
main_lem_example = main_lem startup_env powered
