-- ===== src/WsServer/Commands.antt =====
-- What the messages of a browser do: `process_message` and its handlers in
-- esp32/shared/src/ws_server.cpp. The cJSON library and the flash library are parameters.
use ray_z.GameState.Control.{
  extend_time, pause_game, resume_game, start_game, stop_game, update_target,
}
use ray_z.GameState.Defs.{Vars}
use ray_z.GameState.Runtime.{record_death, record_hit, reset_runtime, reset_stats, start_respawn}
use ray_z.Prelude.{
  Bool, Bytes, List, Option, String, [], bit_and, codes, copy_str, if◌then◌else◌, none, not, some,
  u8, ℕ, ◌==◌, ◌∷◌,
}
use ray_z.Prelude.Int.{negsuc, pos, scale, to_word, ℤ}
use ray_z.Protocol.{max_device_id, max_player_id}
use ray_z.WsServer.Messages.{Json, send_status}

-- A parsed JSON value and the accessors that the program uses. A member that is missing is `none`;
-- `valueint` is the number as a C `int`, and `valuestring` is `none` for NULL.
pub record CJson : Type 1 where
  pub Item : Type 0
  pub parse : Bytes → Option Item
  pub get_object_item : Item → Bytes → Option Item
  pub is_true : Item → Bool
  pub is_string : Item → Bool
  pub is_null : Item → Bool
  pub is_number : Item → Bool
  pub is_array : Item → Bool
  pub valueint : Item → ℤ
  pub valuestring : Item → Option Bytes
  pub elements : Item → List Item

-- What the server does in answer: a frame to one client, a broadcast, a new list of radio peers.
pub data Reply : Type 0 where
  answer : ℕ → Json → Reply
  broadcast : Json → Reply
  load_peers : Bytes → Reply

-- `CommandType`; other values are `none`.
pub data GameCommand : Type 0 where
  cmd_stop cmd_start cmd_reset cmd_pause cmd_unpause cmd_extend_time cmd_update_target : GameCommand

abbrev pub game_command : ℤ → Option GameCommand
game_command (negsuc n) = none
game_command (pos n) =
    if n == 0
    then some cmd_stop
    else if n == 1
    then some cmd_start
    else if n == 2
    then some cmd_reset
    else if n == 3
    then some cmd_pause
    else if n == 4
    then some cmd_unpause
    else if n == 5
    then some cmd_extend_time
    else if n == 6
    then some cmd_update_target
    else none

-- The operations that a browser may ask for, of `OpCode`.
pub data ClientOp : Type 0 where
  get_status heartbeat config_update game_cmd hit_forward kill_confirmed remote_sound : ClientOp

abbrev pub client_op : ℤ → Option ClientOp
client_op (negsuc n) = none
client_op (pos n) =
    if n == 1
    then some get_status
    else if n == 2
    then some heartbeat
    else if n == 3
    then some config_update
    else if n == 4
    then some game_cmd
    else if n == 5
    then some hit_forward
    else if n == 6
    then some kill_confirmed
    else if n == 7
    then some remote_sound
    else none

-- The readings of the timer while one message is processed: by the operation, by a death in it, by
-- the status message and by the heartbeat.
pub record Times : Type 0 where
  pub at_op : ℕ
  pub at_death : ℕ
  pub at_status : ℕ
  pub at_beat : ℕ

-- `ws_server_broadcast_game_state`
unfoldable pub broadcast_state : Times → Vars → List Reply × Vars
broadcast_state ts g =
    let (msg, g') = send_status ts.at_status ts.at_beat g in (broadcast msg ∷ [], g')

-- Assignments one after the other.
unfoldable pub run_updates : List (Vars → Vars) → Vars → Vars
run_updates [] g = g
run_updates (f ∷ fs) g = run_updates fs (f g)

module _ (json : CJson) where
  open json use {
    Item, get_object_item, is_true, is_string, is_null, is_number, is_array, valueint, valuestring,
    elements,
  }

  -- A member that is there and a number.
  unfoldable pub number_member : Item → String → Option ℤ
  number_member root key = elim (get_object_item root (codes key)) [
    | none ↦ none
    | some item ↦ if is_number item then some (valueint item) else none
  ]

  -- The operation that a command calls; `t` is the timer.
  unfoldable pub run_command : ℕ → Item → GameCommand → Vars → Vars
  run_command t root cmd_stop g = stop_game g
  run_command t root cmd_start g = start_game t (reset_runtime g)
  run_command t root cmd_reset g = reset_runtime (reset_stats g)
  run_command t root cmd_pause g = pause_game t g
  run_command t root cmd_unpause g = resume_game t g
  run_command t root cmd_extend_time g = elim (number_member root "extend_minutes") [
    | none ↦ g
    | some n ↦ extend_time n g
  ]
  run_command t root cmd_update_target g = elim (number_member root "new_target") [
    | none ↦ g
    | some n ↦ update_target n g
  ]

  unfoldable pub handle_game_command : Times → Item → Vars → List Reply × Vars
  handle_game_command ts root g = elim (get_object_item root (codes "command")) [
    | none ↦ ([], g)
    | some item ↦
        broadcast_state ts (elim (game_command (valueint item)) [
          | none ↦ g
          | some c ↦ run_command ts.at_op root c g
        ])
  ]

  unfoldable pub handle_hit_forward : Times → Item → Vars → List Reply × Vars
  handle_hit_forward ts root g = elim (number_member root "shooter_id") [
    | none ↦ ([], g)
    | some shooter ↦
        let hit = record_hit g in
        let down = record_death ts.at_death (start_respawn ts.at_op hit) in
        broadcast_state ts (if hit.state.hearts_remaining == 0 then down else hit)
  ]

  -- The effect of a member that is there, and of one that is neither missing nor null.
  unfoldable pub with_item : Item → String → (Item → Vars → Vars) → Vars → Vars
  with_item root key f g = elim (get_object_item root (codes key)) [
    | none ↦ g
    | some item ↦ f item g
  ]

  unfoldable pub with_value : Item → String → (ℤ → Vars → Vars) → Vars → Vars
  with_value root key f g =
      with_item root key (λ item g. if is_null item then g else f (valueint item) g) g

  -- The effect of a member that is a string.
  unfoldable pub with_string : Item → String → (Bytes → Vars → Vars) → Vars → Vars
  with_string root key f g =
      with_item root key
        (λ item g.
          if is_string item then elim (valuestring item) [ none ↦ g | some s ↦ f s g ] else g)
        g

  -- The part of `handle_config_update` on the identity of the device, field by field.
  unfoldable pub device_updates : Item → List (Vars → Vars)
  device_updates root =
      with_string root "device_name"
        (λ s g. record g { config = record g.config { device_name = copy_str 32 s } })
      ∷ with_value root "device_id" (λ n g. record g {
        config = record g.config { device_id = u8 (bit_and (to_word 32 n) max_device_id) };
      })
      ∷ with_value root "player_id" (λ n g. record g {
        config = record g.config { player_id = u8 (bit_and (to_word 32 n) max_player_id) };
      })
      ∷ with_value root "team_id"
          (λ n g. record g { config = record g.config { team_id = to_word 8 n } })
      ∷ with_value root "color_rgb"
          (λ n g. record g { config = record g.config { color_rgb = to_word 32 n } })
      ∷ []

  -- Its part on the game. The product with 1000, whose overflow is undefined in C, wraps here.
  unfoldable pub game_updates : Item → List (Vars → Vars)
  game_updates root =
      with_string root "win_type"
        (λ s g. record g { game_cfg = record g.game_cfg { win_type = copy_str 24 s } })
      ∷ with_item root "target_score" (λ i g. record g {
        game_cfg = record g.game_cfg { target_score = to_word 16 (valueint i) };
      })
      ∷ with_item root "game_duration_s" (λ i g. record g {
        game_cfg = record g.game_cfg { time_limit_s = to_word 16 (valueint i) };
      })
      ∷ with_item root "max_hearts"
          (λ i g. record g { game_cfg = record g.game_cfg { max_hearts = to_word 8 (valueint i) } })
      ∷ with_item root "spawn_hearts" (λ i g. record g {
        game_cfg = record g.game_cfg { spawn_hearts = to_word 8 (valueint i) };
        state = record g.state { hearts_remaining = to_word 8 (valueint i) };
      })
      ∷ with_item root "respawn_time_s" (λ i g. record g {
        game_cfg = record g.game_cfg { respawn_cooldown_ms = to_word 32 (scale 1000 (valueint i)) };
      })
      ∷ with_item root "damage_in"
          (λ i g. record g { game_cfg = record g.game_cfg { damage_in = to_word 8 (valueint i) } })
      ∷ with_item root "damage_out"
          (λ i g. record g { game_cfg = record g.game_cfg { damage_out = to_word 8 (valueint i) } })
      ∷ with_item root "friendly_fire"
          (λ i g. record g { game_cfg = record g.game_cfg { friendly_fire_enabled = is_true i } })
      ∷ with_item root "max_ammo"
          (λ i g. record g { game_cfg = record g.game_cfg { max_ammo = to_word 16 (valueint i) } })
      ∷ with_item root "reload_time_ms" (λ i g. record g {
        game_cfg = record g.game_cfg { reload_time_ms = to_word 16 (valueint i) };
      })
      ∷ with_item root "enable_ammo"
          (λ i g. record g { game_cfg = record g.game_cfg { unlimited_ammo = not (is_true i) } })
      ∷ []
