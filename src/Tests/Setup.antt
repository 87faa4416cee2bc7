-- ===== src/Tests/Setup.antt =====
-- A device that is set up: the form of the access point, and the list of radio peers.
use ray_z.EspNow.{
  EspnowComm, EspnowCommConfig, Radio, broadcast_mac, esp_fail, esp_ok, espnow_comm_broadcast,
  espnow_comm_init, espnow_comm_load_peers_from_csv, tokens, EspErr, esp_exist,
  espnow_comm_add_peer,
}
use ray_z.EspNow.Broadcast.{broadcast_refused}
use ray_z.EspNow.Peers.{known, load_peers_lem, AreTaken}
use ray_z.EspNow.Tokens.{with_commas}
use ray_z.Events.{PlayerMessage, msg_heartbeat}
use ray_z.HttpApi.{Network, load_peers_from_nvs, peers_post_handler}
use ray_z.HttpApi.PeerList.{peers_survive_restart}
use ray_z.Mac.{
  hex_value, parse_mac_str, print_byte, print_mac, scan_char, scan_digits, scan_list, scan_number,
  scan_x, skip_0x, skip_sign, skip_space,
}
use ray_z.NvsStore.{write_item, write_str}
use ray_z.Prelude.{
  Bool, Bytes, List, [], arith, codes, false, if◌then◌else◌, none, refl, some, str_eq, true, ◌||◌,
  ◌↔◌, ◌∷◌, ◌≡◌, ◌≢◌, inl, map, ◌++◌, length, ltb,
}
use ray_z.Tests.Flash.{flash}
use ray_z.Wifi.Provision.{
  boot_provisioning, config_post_handler, restart, station, stored_page, wifi_evaluate_boot_mode,
  wifi_ns,
}
use ray_z.Wifi.Provision.Encoded.{ArePlain, form_encode, station_iff}
use ray_z.Wifi.Provision.Stored.{form, provisioned, FormStored}

flash_works : (key v : Bytes) (g : flash.Flash) → (write_str flash wifi_ns key v g).0 ≡ true
unfolding write_str write_item
flash_works key v g = refl

form_works : (buf : Bytes) (g : flash.Flash) → FormStored flash buf g
form_works buf g = (
  (λ e. flash_works _ _ _),
  (λ e. flash_works _ _ _),
  (λ e. flash_works _ _ _),
  λ e. flash_works _ _ _,
)

provisioned_example :
    let (outcome, f') =
      config_post_handler flash boot_provisioning
        (some (form (codes "home") (codes "secret") (codes "ray")))
        [] in
    (outcome ≡ restart (stored_page (codes "home")))
    × (wifi_evaluate_boot_mode flash f' ≡ station (codes "home") (codes "secret"))
provisioned_example =
    provisioned flash (codes "home") (codes "secret") (codes "ray") [] (omega arith) (omega arith)
      (omega arith) (omega arith) (omega arith) (form_works _ _)

-- A password with a space is not what the station gets.
station_iff_example :
    let (_, f') =
      config_post_handler flash boot_provisioning
        (some (form (codes "home") (codes "my+key") (codes "ray")))
        [] in
    (wifi_evaluate_boot_mode flash f' ≡ station (codes "home") (codes "my key"))
    ↔ (ArePlain (codes "home") × ArePlain (codes "my key"))
unfolding form_encode
station_iff_example =
    station_iff flash (codes "home") (codes "my key") (codes "ray") [] (omega arith) (omega arith)
      (omega arith) (omega arith) (omega arith) (omega arith) (omega arith) (form_works _ _)

abbrev pub first_mac : Bytes
first_mac = 0xAA ∷ 0xBB ∷ 0xCC ∷ 0x01 ∷ 0x20 ∷ 0 ∷ []

abbrev pub second_mac : Bytes
second_mac = 0xAA ∷ 0xBB ∷ 0xCC ∷ 0x01 ∷ 0x20 ∷ 1 ∷ []

-- A library that keeps the addresses of its peers. It refuses a known one, and one beyond the
-- twentieth.
abbrev listed : List Bytes → Bytes → Bool
listed [] m = false
listed (a ∷ ms) m = str_eq m a || listed ms m

unknown_fails :
    (s : List Bytes) (m : Bytes)
    → listed s m ≡ false
    → (if listed s m then esp_ok else esp_fail) ≢ esp_ok
unknown_fails s m h = ground arith

abbrev add_address : Bytes → List Bytes → EspErr × List Bytes
add_address m s =
    if listed s m
    then (esp_exist, s)
    else if ltb (length s) 20
    then (esp_ok, m ∷ s)
    else (esp_fail, s)

add_address_ok :
    (m : Bytes) (s : List Bytes) (other : Bytes)
    → (add_address m s).0 ≡ esp_ok
    → listed (add_address m s).1 other ≡ (str_eq other m || listed s other)
add_address_ok m s other ok = ground arith

add_address_failed :
    (m : Bytes) (s : List Bytes) (other : Bytes)
    → (add_address m s).0 ≢ esp_ok
    → listed (add_address m s).1 other ≡ listed s other
add_address_failed m s other bad = ground arith

abbrev peers : Radio
peers = record {
  Air = List Bytes;
  is_peer_exist = listed;
  esp_now_init = λ s. (esp_ok, s);
  esp_now_deinit = λ s. [];
  set_pmk = λ s. s;
  prefer_wifi = λ s. s;
  set_wifi_channel = λ c s. (esp_ok, s);
  esp_now_add_peer = λ p s. add_address p.peer_addr s;
  esp_now_send = λ m msg s. (if listed s m then esp_ok else esp_fail, s);
  add_peer_ok = λ p s m h. add_address_ok p.peer_addr s m h;
  add_peer_failed = λ p s m h. add_address_failed p.peer_addr s m h;
  init_peers = λ s m h. h;
  deinit_peers = λ s m. refl;
  set_pmk_peers = λ s m. refl;
  prefer_wifi_peers = λ s m. refl;
  channel_peers = λ c s m. refl;
  send_unknown = λ m msg s h. unknown_fails s m h;
}

abbrev comm : EspnowComm
comm = record {
  initialised = false;
  espnow_channel = 0;
  has_rx_queue = false;
  has_send_mutex = false;
  peer_count = 0;
}

load_peers_lem_example :
    let (err, _, s') =
      espnow_comm_load_peers_from_csv peers
        (with_commas (print_mac first_mac ∷ print_mac second_mac ∷ []))
        comm
        [] in
    let ms = first_mac ∷ second_mac ∷ [] in
    ((err ≡ esp_ok) ↔ ((m : Bytes) × (known ms m ≡ true) × (listed s' m ≡ true)))
    × ((m : Bytes) → known ms m ≡ false → listed s' m ≡ listed [] m)
    × ((m : Bytes) → listed [] m ≡ true → listed s' m ≡ true)
    × (AreTaken peers ms comm [] → (m : Bytes) → listed s' m ≡ (known ms m || listed [] m))
unfolding with_commas print_mac print_byte
load_peers_lem_example =
    load_peers_lem peers (first_mac ∷ second_mac ∷ []) comm [] (omega arith) (λ e. cc) (omega arith)

abbrev hello : PlayerMessage
hello = record {
  type = msg_heartbeat;
  version = 1;
  player_id = 1;
  device_id = 2;
  team_id = 0;
  reserved = 0;
  color_rgb = 0;
  timestamp_ms = 0;
  data_word = 0;
}

abbrev setup : EspnowCommConfig
setup = record { channel = 6; prefers_wifi = true; sets_pmk = true }

one_two : parse_mac_str (skip_space (codes "1:2:3:4:5:6")) ≢ some broadcast_mac
unfolding parse_mac_str scan_list scan_x scan_char scan_number scan_digits skip_0x skip_sign
    skip_space hex_value
one_two e = cc

broadcast_refused_example :
    let (_, e1, s1) = espnow_comm_init peers setup true true comm [] in
    let (_, e2, s2) = espnow_comm_load_peers_from_csv peers (codes "1:2:3:4:5:6") e1 s1 in
    (espnow_comm_broadcast peers true hello e2 s2).0 ≡ false
unfolding tokens
broadcast_refused_example =
    broadcast_refused peers setup true true true (codes "1:2:3:4:5:6") hello comm [] refl
      (one_two, tt)

abbrev pub unconfigured : Network
unconfigured = record {
  wifi_events = none;
  boot_mode = boot_provisioning;
  wifi_ip = [];
  device_name = [];
  device_role = [];
  wifi_channel = 1;
  peer_list = [];
}

-- Both addresses are new to the radio.
two_taken : AreTaken peers (first_mac ∷ second_mac ∷ []) comm []
unfolding espnow_comm_add_peer str_eq
two_taken = (refl, (refl, tt))

-- The radio of the device that has started again knows one of them already.
one_taken : AreTaken peers (first_mac ∷ second_mac ∷ []) comm (second_mac ∷ [])
unfolding espnow_comm_add_peer str_eq
one_taken = (refl, (refl, tt))

peers_survive_restart_example :
    let two = first_mac ∷ second_mac ∷ [] in
    let (stored, f1, _, _, s1) =
      peers_post_handler flash peers
        (some (with_commas (map print_mac two) ++ (10 ∷ [])))
        []
        unconfigured
        comm
        [] in
    let (_, _, s3) = load_peers_from_nvs flash peers f1 unconfigured comm (second_mac ∷ []) in
    (stored ≡ true)
    × ((m : Bytes) → listed s1 m ≡ (known two m || listed [] m))
    × ((m : Bytes) → listed s3 m ≡ (known two m || listed (second_mac ∷ []) m))
unfolding with_commas print_mac print_byte write_str write_item
peers_survive_restart_example =
    peers_survive_restart flash peers (first_mac ∷ second_mac ∷ []) (10 ∷ []) [] unconfigured
      unconfigured comm comm [] (second_mac ∷ []) refl (omega arith) (λ e. cc) (inl refl, tt)
      (omega arith) two_taken one_taken
