-- ===== src/Wifi/Start/Joined.antt =====
-- With what configuration esp32/shared/src/wifi_core.cpp asks to connect.
use ray_z.GameState.Control.Phase.{calls}
use ray_z.HttpApi.{Network}
use ray_z.Prelude.{
  Bool, Bytes, List, Option, Option-cases, [], if◌then◌else◌, inl, inr, none, not, refl, some, ◌&&◌,
  ◌∷◌, ◌≡◌, false, true, ◌++◌,
}
use ray_z.Wifi.{Link}
use ray_z.Wifi.Provision.{boot_sta}
use ray_z.Wifi.Start.{
  ApRecord, AuthMode, StaAnswers, StartCall, StationConfig, adapt, after_start, auth_open,
  auth_other, auth_wpa_wpa2_psk, connect_driver, find_best_ap, set_sta_config, station_config,
  wifi_start_sta, clean_netif, is_open, register_disconnect, register_got_ip, set_mode_sta,
  start_driver,
}

-- The station's configuration when the driver is first asked to connect, `config` being the one
-- before these calls; `none` if it is not asked.
unfoldable pub config_at_connect : StationConfig → List StartCall → Option StationConfig
config_at_connect config [] = none
config_at_connect config (connect_driver ∷ cs) = some config
config_at_connect config (set_sta_config c ∷ cs) = config_at_connect c cs
config_at_connect config (c ∷ cs) = config_at_connect config cs

-- The configuration for the access point that was seen, or the one for any.
unfoldable pub joining : Bytes → Bytes → Option ApRecord → StationConfig
joining ssid pass none = station_config ssid pass
joining ssid pass (some best) = record (station_config ssid pass) {
  sta_channel = best.primary;
  sta_threshold = best.authmode;
}

auth_same : (m : AuthMode) → (if not (is_open m) then m else auth_open) ≡ m
auth_same auth_open = refl
auth_same auth_wpa_wpa2_psk = refl
auth_same (auth_other n) = refl

connect-after_start :
    (ssid pass : Bytes) (a : StaAnswers)
    → config_at_connect (station_config ssid pass) (after_start (station_config ssid pass) a)
      ≡ some (joining ssid pass (find_best_ap a.scan))
unfolding config_at_connect after_start adapt joining
connect-after_start ssid pass a = elim (Option-cases (find_best_ap a.scan)) [
  | inl none_seen ↦ rw none_seen refl
  | inr (best, seen) ↦ rw (seen, auth_same best.authmode) refl
]

config_at_connect-clean :
    (has_netif : Bool) (config : StationConfig) (cs : List StartCall)
    → config_at_connect config (clean_netif has_netif ++ cs) ≡ config_at_connect config cs
unfolding config_at_connect
config_at_connect-clean true config cs = refl
config_at_connect-clean false config cs = refl

-- The four calls that are tested, whatever configuration the driver had.
connect_guarded :
    (i m c s : Bool) (before config : StationConfig) (cs : List StartCall)
    → config_at_connect before (
        if not i
        then []
        else register_disconnect
          ∷ register_got_ip
          ∷ set_mode_sta
          ∷ (if not m
              then []
              else set_sta_config config
                ∷ (if not c then [] else start_driver ∷ (if not s then [] else cs))))
      ≡ (if i && (m && (c && s)) then config_at_connect config cs else none)
unfolding config_at_connect
connect_guarded false m c s before config cs = refl
connect_guarded true false c s before config cs = refl
connect_guarded true true false s before config cs = refl
connect_guarded true true true false before config cs = refl
connect_guarded true true true true before config cs = refl

-- The start of a station ends in station mode with the counter of attempts at zero; the driver is
-- asked to connect exactly if the four calls before succeed that the code tests, and then with the
-- credentials given, cut to their arrays, on the channel and with the security of the access point
-- that the scan chose, or on any channel with WPA if it chose none.
pub joined :
    (ssid pass : Bytes) (a : StaAnswers) (has_netif : Bool) (net : Network) (link : Link)
    (before : StationConfig)
    → let (calls, net', link') = wifi_start_sta ssid pass a has_netif net link in
      (net'.boot_mode ≡ boot_sta)
      × (link'.retry_count ≡ 0)
      × (config_at_connect before calls ≡ (
          if a.init_ok && (a.mode_ok && (a.config_ok && a.start_ok))
          then some (joining ssid pass (find_best_ap a.scan))
          else none))
unfolding wifi_start_sta config_at_connect
joined ssid pass a has_netif net link before =
    let config = station_config ssid pass in
    (
      refl,
      refl,
      rw
          (
            config_at_connect-clean has_netif before,
            connect_guarded a.init_ok a.mode_ok a.config_ok a.start_ok before config
                (after_start config a),
            connect-after_start ssid pass a,
          )
          refl,
    )
