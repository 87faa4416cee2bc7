-- ===== src/Trigger.antt =====
-- The weapon's side of a shot: esp32/weapon/src/tasks/control_task.cpp and
-- esp32/weapon/src/tasks/espnow_task.c, and the radio task of the target,
-- esp32/target/src/tasks/espnow_task.cpp.
pub mod Shots
pub mod Credit
use ray_z.Events.{
  Action, PlayerMessage, evt_kill, laser, msg_heartbeat, msg_hit_event, msg_shot, post, radio, web,
}
use ray_z.GameState.Defs.{Vars}
use ray_z.GameState.Runtime.{is_respawning, record_hit, record_kill, record_shot}
use ray_z.Laser.{create_laser_message}
use ray_z.Prelude.{
  Bool, List, [], false, if◌then◌else◌, not, now_ms, true, u16, u8, ℕ, ◌&&◌, ◌+◌, ◌==◌, ◌∷◌,
}
use ray_z.WsServer.Messages.{broadcast_shot, send_status}

-- `g_message_count`, the variables of `control_task` and those of game_state.cpp.
pub record Weapon : Type 0 where
  pub shot_counter : ℕ  -- uint8
  pub was_pressed : Bool
  pub message_count : ℕ  -- uint16
  pub game : Vars

unfoldable pub shot_message : ℕ → ℕ → Vars → PlayerMessage
shot_message laser_msg t g = record {
  type = msg_shot;
  version = 1;
  player_id = g.config.player_id;
  device_id = g.config.device_id;
  team_id = g.config.team_id;
  reserved = 0;
  color_rgb = g.config.color_rgb;
  timestamp_ms = now_ms t;
  data_word = laser_msg;
}

-- The rest of a round of `control_task` on a new press. Whether the radio and the queue take the
-- message is only logged. The web report, at the time `u`, numbers its message.
unfoldable pub fire : Bool → ℕ → ℕ → Weapon → List Action × Weapon
fire connected t u s =
    let laser_msg = create_laser_message s.game.config.player_id s.game.config.device_id in
    let game = record_shot s.game in
    let (report, game') = broadcast_shot u game in
    (
      radio (shot_message laser_msg t game)
          ∷ laser laser_msg
          ∷ (if connected then web report ∷ [] else []),
      record {
        shot_counter = u8 (s.shot_counter + 1);
        was_pressed = true;
        message_count = u16 (s.message_count + 1);
        game = if connected then game' else game;
      },
    )

-- One round of `control_task`: `pressed` is the trigger, which is active low.
unfoldable pub control_round : Bool → Bool → ℕ → ℕ → Weapon → List Action × Weapon
control_round pressed connected t u s =
    let gcfg = s.game.game_cfg in
    if is_respawning s.game
    then ([], s)
    else if not gcfg.unlimited_ammo && (gcfg.max_ammo == 0)
    then ([], s)
    else if not pressed
    then ([], record s { was_pressed = false })
    else if s.was_pressed
    then ([], s)
    else fire connected t u s

-- The task takes the message for the confirmation of a hit of its own.
unfoldable pub is_own_hit : ℕ → PlayerMessage → Bool
is_own_hit self_device_id msg = elim msg.type [
  | msg_hit_event ↦ msg.device_id == self_device_id
  | msg_shot ↦ false
  | msg_heartbeat ↦ false
]

-- What the weapon's `espnow_task` does with a received message; `t` and `u` are the readings of the
-- timer in the status message and in the heartbeat after it.
unfoldable pub weapon_receive : ℕ → PlayerMessage → ℕ → ℕ → Vars → List Action × Vars
weapon_receive self_device_id msg t u g =
    let (status, g') = send_status t u (record_kill (record_hit g)) in
    if is_own_hit self_device_id msg
    then (web status ∷ post (evt_kill msg.player_id msg.device_id) ∷ [], g')
    else ([], g)

-- What the target's `espnow_task` does with it.
unfoldable pub target_receive : ℕ → PlayerMessage → ℕ → ℕ → Vars → List Action × Vars
target_receive self_device_id msg t u g =
    let (status, g') = send_status t u (record_kill (record_hit g)) in
    if is_own_hit self_device_id msg then (web status ∷ [], g') else ([], g)
