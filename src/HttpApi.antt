-- ===== src/HttpApi.antt =====
-- The network manager and the HTTP API: esp32/shared/src/wifi_manager.cpp, wifi_state.cpp and
-- http_api.cpp, with the loading of the peers in esp32/target/src/tasks/espnow_task.cpp.
pub mod PeerList
use ray_z.EspNow.{EspnowComm, Radio, espnow_comm_load_peers_from_csv}
use ray_z.GameState.Texts.{bool_text}
use ray_z.NvsStore.{Nvs, erase_namespace, read_str, write_str}
use ray_z.Prelude.{
  Bool, Bytes, Option, [], codes, copy_str, false, if◌then◌else◌, is_empty, none, print_number,
  some, take, true, ℕ, ◌&&◌, ◌++◌, ◌==◌, ◌||◌, ◌∷◌,
}
use ray_z.Wifi.{or_empty}
use ray_z.Wifi.Provision.{
  BootMode, Started, access_point, boot_provisioning, boot_sta, c_text, station,
  wifi_evaluate_boot_mode, wifi_ns,
}

-- The variables of wifi_state.cpp; of the event group, the bit of a connected station if the group
-- was created.
pub record Network : Type 0 where
  pub wifi_events : Option Bool
  pub boot_mode : BootMode
  pub wifi_ip : Bytes
  pub device_name : Bytes
  pub device_role : Bytes
  pub wifi_channel : ℕ
  pub peer_list : Bytes

abbrev pub key_peers : Bytes
key_peers = codes "peers"

unfoldable pub wifi_manager_is_connected : Network → Bool
wifi_manager_is_connected net = elim net.wifi_events [ none ↦ false | some bit ↦ bit ]

unfoldable pub wifi_manager_get_status_string : Network → Bytes
wifi_manager_get_status_string net = elim net.boot_mode [
  | boot_provisioning ↦ codes "AP Active"
  | boot_sta ↦ if wifi_manager_is_connected net then codes "Online" else codes "Connecting..."
]

abbrev is_newline : ℕ → Bool
is_newline c = c == 10 || c == 13

-- Without the line ends at its end.
unfoldable pub trim_newlines : Bytes → Bytes
trim_newlines [] = []
trim_newlines (c ∷ s) =
    let rest = trim_newlines s in if is_empty rest && is_newline c then [] else c ∷ rest

unfoldable pub peers_page : Bytes → Bytes
peers_page peers = copy_str 320 (codes "{\"peers\":\"" ++ (peers ++ codes "\"}"))

unfoldable pub http_api_get_status_json : ℕ → Network → Bytes
http_api_get_status_json espnow_peers net = copy_str 256 (
    codes "{\"wifi\":"
    ++ (bool_text (wifi_manager_is_connected net)
        ++ (codes ",\"ip\":\""
            ++ (net.wifi_ip
                ++ (codes "\",\"channel\":"
                    ++ (print_number net.wifi_channel
                        ++ (codes ",\"peers\":\""
                            ++ (net.peer_list
                                ++ (codes "\",\"espnow_peers\":"
                                    ++ (print_number espnow_peers ++ codes "}"))))))))))

module _ (nvs : Nvs) where
  open nvs use {Flash}

  -- `none` stands for NULL.
  unfoldable pub wifi_manager_set_peer_list :
      Option Bytes → Flash → Network → Bool × Flash × Network
  wifi_manager_set_peer_list none f net = (false, f, net)
  wifi_manager_set_peer_list (some csv) f net =
      let kept = copy_str 256 csv in
      let (ok, f') = write_str nvs wifi_ns key_peers kept f in
      (ok, f', record net { peer_list = kept })

  -- The text that is put into the buffer of `max_len` bytes, if one is stored.
  unfoldable pub wifi_manager_load_peer_list : ℕ → Flash → Network → Option Bytes × Network
  wifi_manager_load_peer_list max_len f net =
      if max_len == 0 then (none, net) else elim (read_str nvs wifi_ns key_peers max_len f) [
        | none ↦ (none, net)
        | some csv ↦ (some csv, record net { peer_list = copy_str 256 csv })
      ]

  unfoldable pub wifi_manager_factory_reset : Flash → Network → Flash × Network
  wifi_manager_factory_reset f net =
      ((erase_namespace nvs wifi_ns f).1, record net { peer_list = [] })

  -- What `wifi_manager_init` does to the variables before it starts Wi-Fi, and what it then starts.
  unfoldable pub wifi_manager_init :
      Option Bytes → Option Bytes → Flash → Network → Network × Started
  wifi_manager_init name role f net =
      let cached : Bytes = elim (read_str nvs wifi_ns key_peers 256 f) [
        | none ↦ net.peer_list
        | some csv ↦ csv
      ] in
      let started = wifi_evaluate_boot_mode nvs f in
      (
        record net {
          wifi_events = elim net.wifi_events [ none ↦ some false | some bit ↦ some bit ];
          device_name = elim name [ none ↦ net.device_name | some given ↦ copy_str 32 given ];
          device_role = elim role [ none ↦ net.device_role | some given ↦ copy_str 12 given ];
          peer_list = cached;
          boot_mode = elim started [ access_point ↦ boot_provisioning | station s p ↦ boot_sta ];
        },
        started,
      )

  unfoldable pub peers_get_handler : Flash → Network → Bytes × Network
  peers_get_handler f net =
      let (csv, net') = wifi_manager_load_peer_list 256 f net in (peers_page (or_empty csv), net')

  module _ (esp_now : Radio) where
    open esp_now use {Air}

    -- Whether the list was stored, or the request refused. `none` is an error of the receipt.
    unfoldable pub peers_post_handler :
        Option Bytes
        → Flash
        → Network
        → EspnowComm
        → Air
        → Bool × Flash × Network × EspnowComm × Air
    peers_post_handler none f net e s = (false, f, net, e, s)
    peers_post_handler (some body) f net e s =
        let csv = c_text (trim_newlines (take 255 body)) in
        let (_, f', net') = wifi_manager_set_peer_list (some csv) f net in
        let (_, e', s') = espnow_comm_load_peers_from_csv esp_now csv e s in
        if is_empty body then (false, f, net, e, s) else (true, f', net', e', s')

    -- Both devices load the list when the radio has started.
    unfoldable pub load_peers_from_nvs :
        Flash → Network → EspnowComm → Air → Network × EspnowComm × Air
    load_peers_from_nvs f net e s =
        let (csv, net') = wifi_manager_load_peer_list 256 f net in
        elim csv [
          | none ↦ (net', e, s)
          | some peers ↦
              let (_, e', s') = espnow_comm_load_peers_from_csv esp_now peers e s in (net', e', s')
        ]
