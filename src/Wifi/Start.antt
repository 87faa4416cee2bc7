-- ===== src/Wifi/Start.antt =====
-- The start of the station and of the access point, esp32/shared/src/wifi_core.cpp: the choice of
-- the access point to join, the calls of the driver up to the request to connect, and what follows
-- when the station has its address. Log levels, the preference for Wi-Fi that some chips are told, and
-- what is only logged are left out.
pub mod Strongest
pub mod Joined
use ray_z.HttpApi.{Network}
use ray_z.Mac.{print_byte}
use ray_z.Prelude.{
  Bool, Bytes, List, Option, [], codes, false, if◌then◌else◌, none, not, some, take, true, ℕ, ◌++◌,
  ◌∷◌, copy_str, print_number,
}
use ray_z.Prelude.Int.{ltbℤ, ℤ}
use ray_z.Wifi.{Link, got_ip, put_bit}
use ray_z.Wifi.Provision.{boot_provisioning, boot_sta}

-- The kinds of security that the code names; any other by its number.
pub data AuthMode : Type 0 where
  auth_open auth_wpa_wpa2_psk : AuthMode
  auth_other : ℕ → AuthMode

pub record ApRecord : Type 0 where
  pub seen_ssid : Bytes
  pub primary : ℕ
  pub rssi : ℤ
  pub authmode : AuthMode
  pub ap_bssid : Bytes

-- The loop over the records, from `records[best_idx]`.
unfoldable pub strongest : ApRecord → List ApRecord → ApRecord
strongest best [] = best
strongest best (r ∷ rs) = strongest (if ltbℤ best.rssi r.rssi then r else best) rs

-- `found` is what the scan sees, in the driver's order; `none` is a scan that fails.
unfoldable pub find_best_ap : Option (List ApRecord) → Option ApRecord
find_best_ap none = none
find_best_ap (some []) = none
find_best_ap (some (r ∷ rs)) = some (strongest r (take 7 rs))

-- What the code sets of a station's configuration; the constants that choose the kind of scan and of
-- WPA3 are left out.
pub record StationConfig : Type 0 where
  pub sta_ssid : Bytes
  pub sta_password : Bytes
  pub sta_channel : ℕ
  pub sta_threshold : AuthMode
  pub sta_pmf_capable : Bool
  pub sta_pmf_required : Bool
  pub listen_interval : ℕ

pub record AccessPointConfig : Type 0 where
  pub ap_ssid : Bytes
  pub ap_channel : ℕ
  pub ap_authmode : AuthMode
  pub max_connection : ℕ
  pub beacon_interval : ℕ

-- The calls of the driver and of the system that are made in order, and of the device's servers.
pub data StartCall : Type 0 where
  netif_destroy netif_create_sta netif_create_ap init_driver : StartCall
  register_disconnect register_got_ip register_ap_events : StartCall
  set_mode_sta set_mode_ap set_protocol_bg set_bandwidth_ht20 start_driver : StartCall
  set_ps_none connect_driver dns_start start_http_api register_ws_server : StartCall
  http_start : Bool → StartCall
  set_sta_config : StationConfig → StartCall
  set_ap_config : AccessPointConfig → StartCall
  set_max_tx_power set_channel wait_ms : ℕ → StartCall

-- What the driver answers: whether each of the four calls succeeds after which the code can stop,
-- and what the scan sees.
pub record StaAnswers : Type 0 where
  pub init_ok : Bool
  pub mode_ok : Bool
  pub config_ok : Bool
  pub start_ok : Bool
  pub scan : Option (List ApRecord)

-- The two texts are copied with `strncpy` into arrays of 32 and 64 bytes.
unfoldable pub station_config : Bytes → Bytes → StationConfig
station_config ssid pass = record {
  sta_ssid = take 32 ssid;
  sta_password = take 64 pass;
  sta_channel = 0;
  sta_threshold = auth_wpa_wpa2_psk;
  sta_pmf_capable = true;
  sta_pmf_required = false;
  listen_interval = 10;
}

abbrev pub is_open : AuthMode → Bool
is_open auth_open = true
is_open _ = false

-- The configuration is adapted to the access point that was seen.
unfoldable pub adapt : StationConfig → Option ApRecord → List StartCall
adapt config none = []
adapt config (some best) =
    set_sta_config (record config {
      sta_channel = best.primary;
      sta_threshold = if not (is_open best.authmode) then best.authmode else auth_open;
    })
    ∷ []

abbrev pub clean_netif : Bool → List StartCall
clean_netif has_netif = if has_netif then netif_destroy ∷ [] else []

unfoldable pub after_start : StationConfig → StaAnswers → List StartCall
after_start config a =
    wait_ms 1000 ∷ (adapt config (find_best_ap a.scan) ++ (set_ps_none ∷ connect_driver ∷ []))

-- `has_netif` is whether there is a network interface before.
unfoldable pub wifi_start_sta :
    Bytes → Bytes → StaAnswers → Bool → Network → Link → List StartCall × Network × Link
wifi_start_sta ssid pass a has_netif net link =
    let config = station_config ssid pass in
    let started = if not a.start_ok then [] else after_start config a in
    let configured = if not a.config_ok then [] else start_driver ∷ started in
    let in_mode = if not a.mode_ok then [] else set_sta_config config ∷ configured in
    let ready =
      if not a.init_ok
      then []
      else register_disconnect ∷ register_got_ip ∷ set_mode_sta ∷ in_mode in
    (
      clean_netif has_netif ++ (netif_create_sta ∷ init_driver ∷ ready),
      record net { boot_mode = boot_sta },
      record link { retry_count = 0 },
    )

-- The name of the access point from the last three bytes of its address.
unfoldable pub provisioning_ssid : ℕ → ℕ → ℕ → Bytes
provisioning_ssid a b c = codes "RayZ-" ++ (print_byte a ++ (print_byte b ++ print_byte c))

-- `netif_ok` is whether the new network interface could be created, and `a`, `b` and `c` are the
-- last bytes of the device's address. A driver call that fails restarts the device.
unfoldable pub wifi_start_ap :
    Bool → ℕ → ℕ → ℕ → Bool → Network → Link → List StartCall × Network × Link
wifi_start_ap netif_ok a b c has_netif net link =
    let config : AccessPointConfig = record {
      ap_ssid = provisioning_ssid a b c;
      ap_channel = 1;
      ap_authmode = auth_open;
      max_connection = 4;
      beacon_interval = 100;
    } in
    let rest =
      init_driver
      ∷ register_ap_events
      ∷ set_mode_ap
      ∷ set_ap_config config
      ∷ set_protocol_bg
      ∷ set_bandwidth_ht20
      ∷ start_driver
      ∷ wait_ms 500
      ∷ set_max_tx_power 80
      ∷ set_ps_none
      ∷ dns_start
      ∷ http_start true
      ∷ [] in
    (
      clean_netif has_netif ++ (netif_create_ap ∷ (if not netif_ok then [] else rest)),
      record net {
        boot_mode = boot_provisioning;
        wifi_channel = if not netif_ok then net.wifi_channel else config.ap_channel;
      },
      record link { retry_count = 0 },
    )

unfoldable pub print_ip : ℕ → ℕ → ℕ → ℕ → Bytes
print_ip a b c d =
    print_number a
    ++ (b'.' ∷ (print_number b ++ (b'.' ∷ (print_number c ++ (b'.' ∷ print_number d)))))

-- The station has the address `a.b.c.d`; `primary` is the channel of its access point, if the driver
-- tells it.
unfoldable pub on_got_ip :
    ℕ → ℕ → ℕ → ℕ → Option ℕ → Network → Link → List StartCall × Network × Link
on_got_ip a b c d primary net link =
    let seen = record net {
      wifi_ip = copy_str 16 (print_ip a b c d);
      wifi_events = put_bit true net.wifi_events;
    } in
    let (locked, net') : List StartCall × Network = elim primary [
      | none ↦ ([], seen)
      | some channel ↦ (set_channel channel ∷ [], record seen { wifi_channel = channel })
    ] in
    (
      set_ps_none ∷ http_start false ∷ start_http_api ∷ register_ws_server ∷ locked,
      net',
      got_ip link,
    )
