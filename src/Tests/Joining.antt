-- ===== src/Tests/Joining.antt =====
-- A device that looks for its network, and one that is reset.
use ray_z.Events.{DmEvent, evt_factory_reset}
use ray_z.GameState.Control.Phase.{calls}
use ray_z.HttpApi.{Network}
use ray_z.NvsStore.{erase_namespace}
use ray_z.Prelude.{List, [], arith, codes, none, some, take, true, ◌++◌, ◌↔◌, ◌∷◌, ◌≡◌, ◌≢◌}
use ray_z.Prelude.Int.{negsuc}
use ray_z.ResetButton.{reset_button_round}
use ray_z.ResetButton.Held.{AreProgress, IsDown, reset_button_round_lem}
use ray_z.Tests.Flash.{flash}
use ray_z.Tests.Setup.{first_mac, second_mac, unconfigured}
use ray_z.Wifi.Provision.{access_point, boot_sta, wifi_evaluate_boot_mode, wifi_ns}
use ray_z.Wifi.Scan.{scan_get_handler}
use ray_z.Wifi.Scan.Page.{entries, scan_get_handler_lem}
use ray_z.Wifi.Start.{
  ApRecord, StaAnswers, auth_open, auth_other, auth_wpa_wpa2_psk, find_best_ap, station_config,
  wifi_start_sta,
}
use ray_z.Wifi.Start.Joined.{config_at_connect, joined, joining}
use ray_z.Wifi.Start.Strongest.{IsFirstStrongest, find_best_ap_lem}

abbrev home_aps : List ApRecord
home_aps =
    (record {
      seen_ssid = codes "home";
      primary = 1;
      rssi = negsuc 79;
      authmode = auth_wpa_wpa2_psk;
      ap_bssid = first_mac;
    })
    ∷ (record {
      seen_ssid = codes "home";
      primary = 6;
      rssi = negsuc 49;
      authmode = auth_open;
      ap_bssid = second_mac;
    })
    ∷ (record {
      seen_ssid = codes "home";
      primary = 11;
      rssi = negsuc 59;
      authmode = auth_other 3;
      ap_bssid = first_mac;
    })
    ∷ []

find_best_ap_lem_example :
    (find_best_ap none ≡ none)
    × (find_best_ap (some home_aps) ≡ none ↔ home_aps ≡ [])
    × ((r : ApRecord)
        → find_best_ap (some home_aps) ≡ some r
        → IsFirstStrongest r (take 8 home_aps))
find_best_ap_lem_example = find_best_ap_lem home_aps

abbrev driver_answers : StaAnswers
driver_answers = record {
  init_ok = true;
  mode_ok = true;
  config_ok = true;
  start_ok = true;
  scan = some home_aps;
}

joined_example :
    let config = station_config (codes "home") (codes "secret") in
    let (calls, net', link') =
      wifi_start_sta
        (codes "home")
        (codes "secret")
        driver_answers
        true
        unconfigured
        (record { retry_count = 3; connected_bit = none }) in
    (net'.boot_mode ≡ boot_sta)
    × (link'.retry_count ≡ 0)
    × (config_at_connect config calls
        ≡ some (joining (codes "home") (codes "secret") (find_best_ap (some home_aps))))
joined_example =
    joined (codes "home") (codes "secret") driver_answers true unconfigured
      (record { retry_count = 3; connected_bit = none })
      (station_config (codes "home") (codes "secret"))

scan_get_handler_lem_example :
    scan_get_handler true true (some home_aps)
    ≡ some ((codes "[" ++ entries (take 20 home_aps)) ++ codes "]")
scan_get_handler_lem_example = scan_get_handler_lem true true home_aps (omega arith)

reset_button_round_lem_example :
    let (events, after) = reset_button_round flash (λ i. true) [] unconfigured in
    ((after ≢ none) ↔ IsDown (λ i. true) 0 61)
    × ((f' : flash.Flash) (net' : Network)
        → after ≡ some (f', net')
        → (erase_namespace flash wifi_ns []).0 ≡ true
        → wifi_evaluate_boot_mode flash f' ≡ access_point)
    × (after ≢ none → AreProgress events)
    × (after ≡ none
        → true ≡ true
        → (shown : List DmEvent) × (events ≡ shown ++ (evt_factory_reset 0 ∷ []))
          × AreProgress shown)
reset_button_round_lem_example = reset_button_round_lem flash (λ i. true) [] unconfigured
