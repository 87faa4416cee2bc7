-- ===== src/Hit.antt =====
-- The target's side of a hit: esp32/target/src/tasks/processing_task.cpp and
-- esp32/target/src/tasks/game_task.cpp.
pub mod Filter
pub mod Strike
pub mod TwoWords
use ray_z.Events.{
  Action, PlayerMessage, evt_hit, evt_killed, evt_respawn_start, msg_hit_event, post, radio,
  vibrate, web,
}
use ray_z.GameState.Control.{tick}
use ray_z.GameState.Defs.{Vars}
use ray_z.GameState.Roster.{get_player_count, get_player_name}
use ray_z.GameState.Runtime.{check_respawn, is_respawning, record_death}
use ray_z.Laser.{validate_laser_message}
use ray_z.Prelude.{
  Bool, List, [], codes, if◌then◌else◌, ltb, none, not, now_ms, some, sub32, u32, u8, ℕ, ◌&&◌, ◌++◌,
  ◌+◌, ◌-◌, ◌==◌, ◌^◌, ◌||◌, ◌∷◌, is_some,
}
use ray_z.WsServer.Messages.{broadcast_hit}

abbrev pub hit_confirm_count : ℕ
hit_confirm_count = 2

abbrev pub hit_confirm_window_ms : ℕ
hit_confirm_window_ms = 500

-- The variables that `processing_task` keeps between rounds.
pub record Confirm : Type 0 where
  pub last_valid_msg : ℕ  -- uint32
  pub last_valid_time : ℕ  -- uint32
  pub confirm_count : ℕ  -- uint8

abbrev pub no_confirm : Confirm
no_confirm = record { last_valid_msg = 0; last_valid_time = 0; confirm_count = 0 }

-- `s_hit_count` and `s_last_hit_ms` of game_task.cpp.
pub record HitCount : Type 0 where
  pub hit_count : ℕ  -- uint32
  pub last_hit_ms : ℕ  -- uint32

-- What a hit touches: the task's variables, those of game_state.cpp and of game_task.cpp.
pub record Target : Type 0 where
  pub confirm : Confirm
  pub game : Vars
  pub hits : HitCount

-- The readings of the timer in one round, in microseconds, in order.
pub record Clock : Type 0 where
  pub at_receive : ℕ
  pub at_death : ℕ
  pub at_hit : ℕ
  pub at_send : ℕ
  pub at_web : ℕ

unfoldable pub metric_last_hit_ms_ago : ℕ → HitCount → ℕ
metric_last_hit_ms_ago t h =
    if h.last_hit_ms == 0 then 2 ^ 32 - 1 else sub32 (now_ms t) h.last_hit_ms

unfoldable pub metric_respawn_time_left : ℕ → Vars → ℕ
unfolding is_respawning
metric_respawn_time_left t g =
    if not (is_respawning g)
    then 0
    else if ltb (now_ms t) g.state.respawn_end_time_ms
    then g.state.respawn_end_time_ms - now_ms t
    else 0

unfoldable pub game_task_record_hit : ℕ → HitCount → HitCount
game_task_record_hit t h = record { hit_count = u32 (h.hit_count + 1); last_hit_ms = now_ms t }

-- One round of `game_task`, less its log; the weapon's task is the same.
unfoldable pub game_round : ℕ → ℕ → Vars → Vars
unfolding tick is_respawning check_respawn
game_round t u g =
    let ticked = tick t g in if is_respawning ticked then (check_respawn u ticked).1 else ticked

-- The confirmation of a valid word that is received at `now` milliseconds.
unfoldable pub confirm_word : ℕ → ℕ → Confirm → Confirm
confirm_word now message c =
    if (message == c.last_valid_msg) && ltb (sub32 now c.last_valid_time) hit_confirm_window_ms
    then record c { confirm_count = u8 (c.confirm_count + 1) }
    else record { last_valid_msg = message; last_valid_time = now; confirm_count = 1 }

unfoldable pub hit_message : ℕ → ℕ → ℕ → ℕ → Vars → PlayerMessage
hit_message rx_player rx_device message t g = record {
  type = msg_hit_event;
  version = 1;
  player_id = rx_player;
  device_id = rx_device;
  team_id = g.config.team_id;
  reserved = 0;
  color_rgb = g.config.color_rgb;
  timestamp_ms = now_ms t;
  data_word = message;
}

-- The rest of a round once the hit is confirmed and accepted; `connected` is the last answer of
-- `ws_server_is_connected`. The web report numbers its message.
unfoldable pub strike : Bool → Clock → ℕ → ℕ → ℕ → Target → List Action × Target
strike connected clock rx_player rx_device message s =
    let game = record_death clock.at_death s.game in
    let notice =
      if is_respawning game
      then post (evt_killed rx_player rx_device)
        ∷ post (evt_respawn_start game.game_cfg.respawn_cooldown_ms)
        ∷ []
      else post evt_hit ∷ [] in
    let sent = radio (hit_message rx_player rx_device message clock.at_send game) ∷ [] in
    let (report, game') = broadcast_hit clock.at_web (some (codes "unknown")) game in
    (
      vibrate ∷ (notice ++ (sent ++ (if connected then web report ∷ [] else []))),
      record s {
        game = if connected then game' else game;
        hits = game_task_record_hit clock.at_hit s.hits;
      },
    )

-- The roster filter lets a hit of this player through.
unfoldable pub accepts : Bool → ℕ → Vars → Bool
unfolding get_player_name get_player_count
accepts connected rx_player g =
    not (connected && ltb 0 (get_player_count g)) || is_some (get_player_name rx_player g)

-- A round of `processing_task` from the respawn check on, for a word that carries these
-- identifiers.
unfoldable pub receive_valid : Bool → Bool → Clock → ℕ → ℕ → ℕ → Target → List Action × Target
receive_valid connected connected_again clock rx_player rx_device message s =
    let c = confirm_word (now_ms clock.at_receive) message s.confirm in
    let idle = record s { confirm = record c { confirm_count = 0; last_valid_msg = 0 } } in
    if is_respawning s.game
    then ([], record s { confirm = record s.confirm { confirm_count = 0; last_valid_msg = 0 } })
    else if ltb c.confirm_count hit_confirm_count
    then ([], record s { confirm = c })
    else if rx_player == s.game.config.player_id
    then ([], idle)
    else if accepts connected rx_player s.game
    then strike connected_again clock rx_player rx_device message idle
    else ([], idle)

-- One round of `processing_task` on a received word. `connected` and `connected_again` are the
-- answers of `ws_server_is_connected`.
unfoldable pub processing_round : Bool → Bool → Clock → ℕ → Target → List Action × Target
processing_round connected connected_again clock message s = elim (validate_laser_message message) [
  | none ↦ ([], s)
  | some (rx_player, rx_device) ↦
      receive_valid connected connected_again clock rx_player rx_device message s
]
