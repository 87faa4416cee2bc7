-- ===== src/EspNow/Broadcast.antt =====
-- Whether a broadcast is sent (esp32/shared/src/espnow_comm.cpp).
use ray_z.EspNow.{
  EspnowComm, EspnowCommConfig, Radio, broadcast_mac, espnow_comm_broadcast, espnow_comm_init,
  espnow_comm_load_peers_from_csv, espnow_comm_set_channel, load_tokens, tokens,
  espnow_comm_add_peer, espnow_comm_send, is_ok,
}
use ray_z.EspNow.AddPeer.{add_peer_other}
use ray_z.Events.{PlayerMessage}
use ray_z.Mac.{parse_mac_str, skip_space}
use ray_z.Prelude.{
  Bool, Bool-cases, Bytes, List, Option-cases, [], arith, copy_str, eq_of_str_eq, false, inl, inr,
  some, str_eq, sym, ℕ, ◌∷◌, ◌≡◌, ◌≢◌, ap, if◌then◌else◌, true, u8, ◌+◌, ◌||◌, ◌∙◌,
}

-- No token of the list reads as the address.
abbrev pub Absent : Bytes → List Bytes → Type 0
Absent mac [] = Unit {0}
Absent mac (t ∷ ts) = (parse_mac_str (skip_space t) ≢ some mac) × Absent mac ts

str_eq_ne : (a b : Bytes) → a ≢ b → str_eq b a ≡ false
str_eq_ne a b h = elim (Bool-cases (str_eq b a)) [
  | inl same ↦ absurd (h (sym (eq_of_str_eq b a same)))
  | inr other ↦ other
]

module _ (esp_now : Radio) where
  open esp_now use {Air, is_peer_exist}

  load_tokens-Absent :
      (mac : Bytes) (ts : List Bytes) (loaded : ℕ) (e : EspnowComm) (s : Air)
      → Absent mac ts
      → is_peer_exist s mac ≡ false
      → is_peer_exist (load_tokens esp_now ts loaded e s).2 mac ≡ false
  unfolding load_tokens
  load_tokens-Absent mac [] loaded e s h none_yet = none_yet
  load_tokens-Absent mac (t ∷ ts) loaded e s h none_yet =
      elim (Option-cases (parse_mac_str (skip_space t))) [
        | inl bad ↦ ground (arith, load_tokens-Absent mac ts loaded e s h.1 none_yet)
        | inr (a, good) ↦
            let (err, e', s') = espnow_comm_add_peer esp_now a e s in
            let other : str_eq mac a ≡ false =
              str_eq_ne a mac (λ same. h.0 (good ∙ ap some same)) in
            let still : is_peer_exist s' mac ≡ false =
              add_peer_other esp_now a mac e s other ∙ none_yet in
            ground (
              arith,
              load_tokens-Absent mac ts (if is_ok err then u8 (loaded + 1) else loaded) e' s' h.1
                  still,
            )
      ]

  set_channel_peers :
      (c : ℕ) (mac : Bytes) (e : EspnowComm) (s : Air)
      → is_peer_exist s mac ≡ false
      → is_peer_exist (espnow_comm_set_channel esp_now c e s).2 mac ≡ false
  unfolding espnow_comm_set_channel
  set_channel_peers c mac e s h = ground (arith, esp_now.channel_peers c s mac)

  if_no_peer :
      (b : Bool) (mac : Bytes) (s s' : Air)
      → is_peer_exist s' mac ≡ is_peer_exist s mac
      → is_peer_exist s mac ≡ false
      → is_peer_exist (if b then s' else s) mac ≡ false
  if_no_peer true mac s s' same h = same ∙ h
  if_no_peer false mac s s' same h = h

  init_no_peer :
      (config : EspnowCommConfig) (made_queue made_mutex : Bool) (mac : Bytes) (e : EspnowComm)
      (s : Air)
      → is_peer_exist s mac ≡ false
      → is_peer_exist (espnow_comm_init esp_now config made_queue made_mutex e s).2 mac ≡ false
  unfolding espnow_comm_init
  init_no_peer config made_queue made_mutex mac e s h =
      let s1 = (esp_now.esp_now_init s).1 in
      let h1 = esp_now.init_peers s mac h in
      let s2 = if config.sets_pmk then esp_now.set_pmk s1 else s1 in
      let h2 =
        if_no_peer config.sets_pmk mac s1 (esp_now.set_pmk s1) (esp_now.set_pmk_peers s1 mac) h1 in
      let e1 : EspnowComm = record e {
        has_rx_queue = e.has_rx_queue || made_queue;
        has_send_mutex = e.has_send_mutex || made_mutex;
        peer_count = 0;
      } in
      let s3 = (espnow_comm_set_channel esp_now config.channel e1 s2).2 in
      let h3 = set_channel_peers config.channel mac e1 s2 h2 in
      let h4 =
        if_no_peer config.prefers_wifi mac s3 (esp_now.prefer_wifi s3)
          (esp_now.prefer_wifi_peers s3 mac) h3 in
      ground arith

  load_no_peer :
      (mac csv : Bytes) (e : EspnowComm) (s : Air)
      → Absent mac (tokens (copy_str 256 csv) [])
      → is_peer_exist s mac ≡ false
      → is_peer_exist (espnow_comm_load_peers_from_csv esp_now csv e s).2 mac ≡ false
  unfolding espnow_comm_load_peers_from_csv
  load_no_peer mac [] e s h none_yet = none_yet
  load_no_peer mac (c ∷ csv) e s h none_yet =
      load_tokens-Absent mac (tokens (copy_str 256 (c ∷ csv)) []) 0 e s h none_yet

  send_refused :
      (taken : Bool) (msg : PlayerMessage) (e : EspnowComm) (s : Air)
      → is_peer_exist s broadcast_mac ≡ false
      → (espnow_comm_broadcast esp_now taken msg e s).0 ≡ false
  unfolding espnow_comm_broadcast espnow_comm_send
  send_refused taken msg e s h = ground (arith, esp_now.send_unknown broadcast_mac msg s h)

  -- A device that starts the radio with no peer at the broadcast address and loads a list which
  -- does not name that address cannot broadcast: every message is refused.
  pub broadcast_refused :
      (config : EspnowCommConfig) (made_queue made_mutex taken : Bool) (csv : Bytes)
      (msg : PlayerMessage) (e : EspnowComm) (s : Air)
      → is_peer_exist s broadcast_mac ≡ false
      → Absent broadcast_mac (tokens (copy_str 256 csv) [])
      → let (_, e1, s1) = espnow_comm_init esp_now config made_queue made_mutex e s in
        let (_, e2, s2) = espnow_comm_load_peers_from_csv esp_now csv e1 s1 in
        (espnow_comm_broadcast esp_now taken msg e2 s2).0 ≡ false
  broadcast_refused config made_queue made_mutex taken csv msg e s none_yet absent =
      let (_, e1, s1) = espnow_comm_init esp_now config made_queue made_mutex e s in
      let (_, e2, s2) = espnow_comm_load_peers_from_csv esp_now csv e1 s1 in
      send_refused taken msg e2 s2 (
        load_no_peer broadcast_mac csv e1 s1 absent
          (init_no_peer config made_queue made_mutex broadcast_mac e s none_yet))
