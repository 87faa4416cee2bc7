-- ===== src/EspNow.antt =====
-- The radio driver, esp32/shared/src/espnow_comm.cpp, over the ESP-NOW library as a parameter.
pub mod Tokens
pub mod AddPeer
pub mod Peers
pub mod Broadcast
use ray_z.Events.{PlayerMessage}
use ray_z.Laser.{calculate_hash_8bit}
use ray_z.Mac.{parse_mac_str, skip_space}
use ray_z.Prelude.{
  Bool, Bytes, List, Option, [], bit_xor, copy_str, false, if◌then◌else◌, ltb, none, not, some,
  str_eq, true, u8, ℕ, ◌&&◌, ◌++◌, ◌+◌, ◌==◌, ◌||◌, ◌∷◌, ◌≡◌, ◌≢◌,
}

-- What the calls of the library return, as far as the driver tells the values apart.
pub data EspErr : Type 0 where
  esp_ok esp_exist esp_fail esp_invalid_arg : EspErr

abbrev pub is_ok : EspErr → Bool
is_ok esp_ok = true
is_ok esp_exist = false
is_ok esp_fail = false
is_ok esp_invalid_arg = false

pub record PeerInfo : Type 0 where
  pub peer_addr : Bytes
  pub peer_channel : ℕ
  pub encrypt : Bool

-- The library with the Wi-Fi channel. The laws are the documented ones: which addresses are peers
-- after each call, and that nothing can be sent to an address that is no peer.
pub record Radio : Type 1 where
  pub Air : Type 0
  pub is_peer_exist : Air → Bytes → Bool
  pub esp_now_init : Air → EspErr × Air
  pub esp_now_deinit : Air → Air
  pub set_pmk : Air → Air
  pub prefer_wifi : Air → Air
  pub set_wifi_channel : ℕ → Air → EspErr × Air
  pub esp_now_add_peer : PeerInfo → Air → EspErr × Air
  pub esp_now_send : Bytes → PlayerMessage → Air → EspErr × Air
  pub add_peer_ok :
      (p : PeerInfo) (s : Air) (mac : Bytes)
      → (esp_now_add_peer p s).0 ≡ esp_ok
      → is_peer_exist (esp_now_add_peer p s).1 mac ≡ (str_eq mac p.peer_addr || is_peer_exist s mac)
  pub add_peer_failed :
      (p : PeerInfo) (s : Air) (mac : Bytes)
      → (esp_now_add_peer p s).0 ≢ esp_ok
      → is_peer_exist (esp_now_add_peer p s).1 mac ≡ is_peer_exist s mac
  pub init_peers :
      (s : Air) (mac : Bytes)
      → is_peer_exist s mac ≡ false
      → is_peer_exist (esp_now_init s).1 mac ≡ false
  pub deinit_peers : (s : Air) (mac : Bytes) → is_peer_exist (esp_now_deinit s) mac ≡ false
  pub set_pmk_peers : (s : Air) (mac : Bytes) → is_peer_exist (set_pmk s) mac ≡ is_peer_exist s mac
  pub prefer_wifi_peers :
      (s : Air) (mac : Bytes) → is_peer_exist (prefer_wifi s) mac ≡ is_peer_exist s mac
  pub channel_peers :
      (c : ℕ) (s : Air) (mac : Bytes)
      → is_peer_exist (set_wifi_channel c s).1 mac ≡ is_peer_exist s mac
  pub send_unknown :
      (mac : Bytes) (m : PlayerMessage) (s : Air)
      → is_peer_exist s mac ≡ false
      → (esp_now_send mac m s).0 ≢ esp_ok

pub record EspnowCommConfig : Type 0 where
  pub channel : ℕ
  pub prefers_wifi : Bool
  pub sets_pmk : Bool

-- The file's variables; of the queue and the mutex, whether they were created.
pub record EspnowComm : Type 0 where
  pub initialised : Bool
  pub espnow_channel : ℕ
  pub has_rx_queue : Bool
  pub has_send_mutex : Bool
  pub peer_count : ℕ

unfoldable pub espnow_comm_hash_id : Bytes → ℕ → ℕ
espnow_comm_hash_id [] hash = hash
espnow_comm_hash_id (c ∷ id) hash = espnow_comm_hash_id id (calculate_hash_8bit (bit_xor hash c))

abbrev pub is_separator : ℕ → Bool
is_separator c = c == b',' || c == b';'

-- The tokens of `strtok(buffer, ",;")`, behind the characters `cur` of one that has begun.
unfoldable pub tokens : Bytes → Bytes → List Bytes
tokens [] [] = []
tokens [] (a ∷ cur) = (a ∷ cur) ∷ []
tokens (c ∷ s) cur = elim (is_separator c) [
  | false ↦ tokens s (cur ++ (c ∷ []))
  | true ↦ elim cur [ [] ↦ tokens s [] | a ∷ rest ↦ (a ∷ rest) ∷ tokens s [] ]
]

abbrev pub broadcast_mac : Bytes
broadcast_mac = 0xFF ∷ 0xFF ∷ 0xFF ∷ 0xFF ∷ 0xFF ∷ 0xFF ∷ []

-- `sizeof(PlayerMessage)`: the structure is packed.
abbrev pub player_message_size : ℕ
player_message_size = 20

pub record Envelope : Type 0 where
  pub src_mac : Bytes
  pub msg : PlayerMessage

-- What a received packet puts into the queue; `msg` is its bytes read as a message.
unfoldable pub recv_cb : EspnowComm → Bytes → ℕ → PlayerMessage → Option Envelope
recv_cb e src len msg =
    if not (len == player_message_size)
    then none
    else if e.has_rx_queue
    then some (record { src_mac = src; msg = msg })
    else none

module _ (esp_now : Radio) where
  open esp_now use {
    Air, is_peer_exist, esp_now_init, esp_now_deinit, set_pmk, prefer_wifi, set_wifi_channel,
    esp_now_add_peer, esp_now_send,
  }

  unfoldable pub espnow_comm_set_channel : ℕ → EspnowComm → Air → EspErr × EspnowComm × Air
  espnow_comm_set_channel channel e s =
      let (err, s') = set_wifi_channel channel s in
      if channel == 0
      then (esp_ok, e, s)
      else (err, if is_ok err then record e { espnow_channel = channel } else e, s')

  -- `made_queue` and `made_mutex` are whether the queue and the mutex can be created.
  unfoldable pub espnow_comm_init :
      EspnowCommConfig → Bool → Bool → EspnowComm → Air → EspErr × EspnowComm × Air
  espnow_comm_init config made_queue made_mutex e s =
      let (err, s1) = esp_now_init s in
      let e1 = record e {
        has_rx_queue = e.has_rx_queue || made_queue;
        has_send_mutex = e.has_send_mutex || made_mutex;
        peer_count = 0;
      } in
      let s2 = if config.sets_pmk then set_pmk s1 else s1 in
      let (_, e3, s3) = espnow_comm_set_channel config.channel e1 s2 in
      let s4 = if config.prefers_wifi then prefer_wifi s3 else s3 in
      if e.initialised then (esp_ok, e, s) else elim err [
        | esp_ok ↦ (esp_ok, record e3 { initialised = true }, s4)
        | esp_exist ↦ (esp_ok, record e3 { initialised = true }, s4)
        | esp_fail ↦ (esp_fail, e, s1)
        | esp_invalid_arg ↦ (esp_invalid_arg, e, s1)
      ]

  unfoldable pub espnow_comm_add_peer : Bytes → EspnowComm → Air → EspErr × EspnowComm × Air
  espnow_comm_add_peer mac e s =
      let (err, s') =
        esp_now_add_peer
          (record { peer_addr = mac; peer_channel = e.espnow_channel; encrypt = false }) s in
      if is_peer_exist s mac
      then (esp_ok, e, s)
      else (err, if is_ok err then record e { peer_count = u8 (e.peer_count + 1) } else e, s')

  unfoldable pub espnow_comm_clear_peers : EspnowComm → Air → EspnowComm × Air
  espnow_comm_clear_peers e s = (record e { initialised = false; peer_count = 0 }, esp_now_deinit s)

  -- The loop over the tokens; the first number is how many were loaded.
  unfoldable pub load_tokens : List Bytes → ℕ → EspnowComm → Air → ℕ × EspnowComm × Air
  load_tokens [] loaded e s = (loaded, e, s)
  load_tokens (t ∷ ts) loaded e s = elim (parse_mac_str (skip_space t)) [
    | none ↦ load_tokens ts loaded e s
    | some mac ↦
        let (err, e', s') = espnow_comm_add_peer mac e s in
        load_tokens ts (if is_ok err then u8 (loaded + 1) else loaded) e' s'
  ]

  unfoldable pub espnow_comm_load_peers_from_csv :
      Bytes → EspnowComm → Air → EspErr × EspnowComm × Air
  espnow_comm_load_peers_from_csv [] e s = (esp_ok, e, s)
  espnow_comm_load_peers_from_csv (c ∷ csv) e s =
      let (loaded, e', s') = load_tokens (tokens (copy_str 256 (c ∷ csv)) []) 0 e s in
      (if ltb 0 loaded then esp_ok else esp_fail, e', s')

  -- `taken` is whether the mutex was taken within 50 ms.
  unfoldable pub espnow_comm_send : Bool → Bytes → PlayerMessage → EspnowComm → Air → Bool × Air
  espnow_comm_send taken mac msg e s =
      let (err, s') = esp_now_send mac msg s in
      if e.has_send_mutex && taken then (is_ok err, s') else (false, s)

  unfoldable pub espnow_comm_broadcast : Bool → PlayerMessage → EspnowComm → Air → Bool × Air
  espnow_comm_broadcast taken msg e s = espnow_comm_send taken broadcast_mac msg e s
