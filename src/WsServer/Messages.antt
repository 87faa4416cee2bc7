-- ===== src/WsServer/Messages.antt =====
-- The messages that esp32/shared/src/ws_server.cpp sends, as the fields that it adds to the cJSON
-- objects, in order. Printing them is the library's.
use ray_z.GameState.Defs.{Vars}
use ray_z.GameState.Runtime.{next_seq_id, update_heartbeat}
use ray_z.Prelude.{
  Bool, Bytes, List, Option, String, [], codes, false, if◌then◌else◌, leb, none, not, some, ℕ, ◌&&◌,
  ◌*◌, ◌+◌, ◌-◌, ◌/◌, ◌∷◌,
}

pub data JsonItem : Type 0 where
  num_item : ℕ → JsonItem
  str_item : Bytes → JsonItem
  bool_item : Bool → JsonItem

pub data JsonField : Type 0 where
  item_field : JsonItem → JsonField
  object_field : List (Bytes × JsonItem) → JsonField

abbrev pub Json : Type 0
Json = List (Bytes × JsonField)

abbrev add_number : String → ℕ → Bytes × JsonField
add_number key n = (codes key, item_field (num_item n))

abbrev add_string : String → String → Bytes × JsonField
add_string key s = (codes key, item_field (str_item (codes s)))

abbrev number : String → ℕ → Bytes × JsonItem
number key n = (codes key, num_item n)

abbrev truth : String → Bool → Bytes × JsonItem
truth key b = (codes key, bool_item b)

-- The values of `OpCode` in esp32/shared/include/game_protocol.h.
abbrev pub op_status : ℕ
op_status = 10

abbrev pub op_heartbeat_ack : ℕ
op_heartbeat_ack = 11

abbrev pub op_shot_fired : ℕ
op_shot_fired = 12

abbrev pub op_hit_report : ℕ
op_hit_report = 13

abbrev pub op_respawn : ℕ
op_respawn = 14

-- The three objects inside a status message.
unfoldable pub status_config : Vars → List (Bytes × JsonItem)
status_config g =
    let cfg = g.config in
    let game = g.game_cfg in
    number "device_id" cfg.device_id
    ∷ number "player_id" cfg.player_id
    ∷ number "team_id" cfg.team_id
    ∷ number "color_rgb" cfg.color_rgb
    ∷ (codes "device_name", str_item cfg.device_name)
    ∷ truth "enable_hearts" (not game.unlimited_respawn)
    ∷ number "max_hearts" game.max_hearts
    ∷ number "spawn_hearts" g.state.hearts_remaining
    ∷ number "respawn_time_s" (game.respawn_cooldown_ms / 1000)
    ∷ truth "friendly_fire" game.friendly_fire_enabled
    ∷ truth "enable_ammo" (not game.unlimited_ammo)
    ∷ number "max_ammo" game.max_ammo
    ∷ number "reload_time_ms" game.reload_time_ms
    ∷ number "game_duration_s" game.time_limit_s
    ∷ []

unfoldable pub status_stats : Vars → List (Bytes × JsonItem)
status_stats g =
    number "shots" g.state.shots_fired
    ∷ number "enemy_kills" g.state.kills
    ∷ number "friendly_kills" g.state.friendly_fire_count
    ∷ number "deaths" g.state.deaths
    ∷ []

unfoldable pub status_state : Vars → List (Bytes × JsonItem)
status_state g =
    number "current_hearts" g.state.hearts_remaining
    ∷ number "current_ammo" 0
    ∷ truth "is_respawning" g.state.respawning
    ∷ truth "is_reloading" false
    ∷ []

-- `t` is the timer in microseconds.
unfoldable pub create_status_json : ℕ → Vars → Json × Vars
create_status_json t g =
    let (seq, g') = next_seq_id g in
    (
      add_number "op" op_status
          ∷ add_string "type" "status"
          ∷ add_number "uptime_ms" (t / 1000)
          ∷ add_number "seq_id" seq
          ∷ (codes "config", object_field (status_config g'))
          ∷ (codes "stats", object_field (status_stats g'))
          ∷ (codes "state", object_field (status_state g'))
          ∷ [],
      g',
    )

-- `ws_server_send_status`, `ws_server_send_status_to` and `ws_server_broadcast_game_state`: what
-- is sent, and the heartbeat at the time `u`.
unfoldable pub send_status : ℕ → ℕ → Vars → Json × Vars
send_status t u g = let (msg, g') = create_status_json t g in (msg, update_heartbeat u g')

unfoldable pub heartbeat_ack : Json
heartbeat_ack = add_number "op" op_heartbeat_ack ∷ add_string "type" "heartbeat_ack" ∷ []

-- `atoi` of a text that starts with neither blanks nor a sign.
unfoldable pub atoi : ℕ → Bytes → ℕ
atoi acc [] = acc
atoi acc (c ∷ s) =
    let rest = atoi (acc * 10 + (c - 48)) s in if leb 48 c && leb c 57 then rest else acc

abbrev pub hit_report : ℕ → ℕ → ℕ → Json
hit_report t shooter seq =
    add_number "op" op_hit_report
    ∷ add_string "type" "hit_report"
    ∷ add_number "timestamp_ms" (t / 1000)
    ∷ add_number "shooter_id" shooter
    ∷ add_number "seq_id" seq
    ∷ []

unfoldable pub broadcast_hit : ℕ → Option Bytes → Vars → Json × Vars
broadcast_hit t shooter_id_str g =
    let shooter : ℕ = elim shooter_id_str [ none ↦ 0 | some s ↦ atoi 0 s ] in
    let (seq, g') = next_seq_id g in (hit_report t shooter seq, g')

unfoldable pub broadcast_shot : ℕ → Vars → Json × Vars
broadcast_shot t g =
    let (seq, g') = next_seq_id g in
    (
      add_number "op" op_shot_fired
          ∷ add_string "type" "shot_fired"
          ∷ add_number "timestamp_ms" (t / 1000)
          ∷ add_number "seq_id" seq
          ∷ [],
      g',
    )

unfoldable pub broadcast_respawn : ℕ → Vars → Json × Vars
broadcast_respawn t g =
    let (seq, g') = next_seq_id g in
    (
      add_number "op" op_respawn
          ∷ add_string "type" "respawn"
          ∷ add_number "timestamp_ms" (t / 1000)
          ∷ add_number "current_hearts" g.state.hearts_remaining
          ∷ add_number "seq_id" seq
          ∷ [],
      g',
    )
