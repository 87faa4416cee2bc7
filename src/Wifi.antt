-- ===== src/Wifi.antt =====
-- The retries of the Wi-Fi station, esp32/shared/src/wifi_core.cpp: what the handler of a lost
-- connection asks of the driver, and its counter of attempts.
pub mod Calls
pub mod Retry
pub mod Provision
pub mod Start
pub mod Scan
pub mod Routes
use ray_z.NvsStore.{Nvs, read_str}
use ray_z.Prelude.{
  Bool, Bytes, List, Option, [], codes, false, if◌then◌else◌, leb, ltb, none, some, true, ℕ, ◌&&◌,
  ◌+◌, ◌++◌, ◌==◌, ◌||◌, ◌∷◌,
}

abbrev pub max_retry_count : ℕ
max_retry_count = 15

abbrev pub wifi_max_ssid_len : ℕ
wifi_max_ssid_len = 32

abbrev pub wifi_max_pass_len : ℕ
wifi_max_pass_len = 64

-- The reasons that the code names; 205 is `connection_failed`.
pub data Reason : Type 0 where
  auth_expire auth_fail assoc_expire assoc_leave beacon_timeout no_ap_found : Reason
  assoc_fail four_way_handshake_timeout handshake_timeout mic_failure : Reason
  connection_failed other_reason : Reason

-- What the code sets of the driver's configuration of a station. `open_auth` is the threshold
-- WIFI_AUTH_OPEN; `all_channels` and `by_signal` are the two methods of the scan.
pub record StaConfig : Type 0 where
  pub ssid : Bytes
  pub password : Bytes
  pub open_auth : Bool
  pub pmf_capable : Bool
  pub pmf_required : Bool
  pub bssid_set : Bool
  pub bssid : Bytes
  pub all_channels : Bool
  pub by_signal : Bool

-- The calls of the driver that change its state, and the waits, in milliseconds.
pub data DriverCall : Type 0 where
  wifi_disconnect wifi_stop wifi_restore wifi_start wifi_connect : DriverCall
  wifi_set_mode_sta wifi_set_ps_none : DriverCall
  wifi_set_config : StaConfig → DriverCall
  task_delay : ℕ → DriverCall

-- The driver's answers: the configuration it reports at the two places that ask for it, if it
-- reports one, and whether the first request to connect was accepted.
pub record Replies : Type 0 where
  pub early_config : Option StaConfig
  pub relax_config : Option StaConfig
  pub accepted : Bool

-- The counter, and the bit of a connected station, if the event group was created.
pub record Link : Type 0 where
  pub retry_count : ℕ
  pub connected_bit : Option Bool

abbrev pub no_bssid : Bytes
no_bssid = 0 ∷ 0 ∷ 0 ∷ 0 ∷ 0 ∷ 0 ∷ []

unfoldable pub put_bit : Bool → Option Bool → Option Bool
put_bit b none = none
put_bit b (some old) = some b

unfoldable pub wifi_relax_auth_config : Option StaConfig → List DriverCall
wifi_relax_auth_config none = []
wifi_relax_auth_config (some conf) =
    wifi_set_config (record conf {
      open_auth = true;
      pmf_capable = true;
      pmf_required = false;
      bssid_set = false;
      bssid = no_bssid;
    })
    ∷ []

-- The lock to one access point is given up at the third attempt.
unfoldable pub clear_bssid_lock : Option StaConfig → List DriverCall
clear_bssid_lock none = []
clear_bssid_lock (some conf) =
    if conf.bssid_set
    then wifi_set_config (record conf { bssid_set = false; bssid = no_bssid }) ∷ []
    else []

unfoldable pub is_handshake : Reason → Bool
is_handshake four_way_handshake_timeout = true
is_handshake handshake_timeout = true
is_handshake _ = false

unfoldable pub is_auth_or_conn : Reason → Bool
is_auth_or_conn auth_expire = true
is_auth_or_conn auth_fail = true
is_auth_or_conn assoc_expire = true
is_auth_or_conn assoc_fail = true
is_auth_or_conn connection_failed = true
is_auth_or_conn _ = false

-- No reason is given if the event has no data.
unfoldable pub relax_due : ℕ → Option Reason → Bool
relax_due count none = false
relax_due count (some reason) = is_handshake reason || (is_auth_or_conn reason && leb 4 count)

unfoldable pub backoff_ms : ℕ → ℕ
backoff_ms count =
    if count == 1 then 1000 else if count == 2 then 2000 else if count == 3 then 3000 else 5000

-- A failed request to connect is repeated once after two seconds.
unfoldable pub try_connect : Bool → List DriverCall
try_connect accepted = wifi_connect ∷ (if accepted then [] else task_delay 2000 ∷ wifi_connect ∷ [])

-- The buffers are zero if nothing is stored.
abbrev pub or_empty : Option Bytes → Bytes
or_empty none = []
or_empty (some s) = s

module _ (nvs : Nvs) where
  open nvs use {Flash}

  -- The credentials of the store, with no threshold and no lock.
  unfoldable pub fresh_config : Flash → StaConfig
  fresh_config f = record {
    ssid = or_empty (read_str nvs (codes "wifi") (codes "ssid") wifi_max_ssid_len f);
    password = or_empty (read_str nvs (codes "wifi") (codes "pass") wifi_max_pass_len f);
    open_auth = true;
    pmf_capable = true;
    pmf_required = false;
    bssid_set = false;
    bssid = no_bssid;
    all_channels = true;
    by_signal = true;
  }

  -- The two resets differ only in the first wait.
  unfoldable pub driver_reset : ℕ → Flash → List DriverCall
  driver_reset wait f =
      wifi_disconnect
      ∷ wifi_stop
      ∷ wifi_restore
      ∷ task_delay wait
      ∷ wifi_set_mode_sta
      ∷ wifi_set_config (fresh_config f)
      ∷ wifi_start
      ∷ task_delay 1000
      ∷ wifi_set_ps_none
      ∷ wifi_connect
      ∷ []

  unfoldable pub on_wifi_disconnect :
      Option Reason → Replies → Flash → Link → List DriverCall × Link
  on_wifi_disconnect reason r f link =
      let bit = put_bit false link.connected_bit in
      let count = link.retry_count + 1 in
      let early = if count == 3 then clear_bssid_lock r.early_config else [] in
      let relaxed = if relax_due count reason then wifi_relax_auth_config r.relax_config else [] in
      if ltb count max_retry_count
      then (
        early
            ++ relaxed
            ++ (if count == 8
                then driver_reset 2000 f
                else task_delay (backoff_ms count) ∷ wifi_set_ps_none ∷ try_connect r.accepted),
        record { retry_count = count; connected_bit = bit },
      )
      else (driver_reset 3000 f, record { retry_count = 0; connected_bit = bit })

-- What `on_got_ip` does to the counter and the bit.
unfoldable pub got_ip : Link → Link
got_ip link = record { retry_count = 0; connected_bit = put_bit true link.connected_bit }
