-- ===== src/GameState/Defs.antt =====
-- The file-scope variables of esp32/shared/src/game_state.cpp, and their zero values.
use ray_z.Prelude.{Bool, List, [], false, replicate, ℕ}
use ray_z.Protocol.{
  DeviceConfig, GameConfig, GameStateData, PlayerEntry, max_player_entries, weapon,
}

-- `s_config`, `s_game_cfg`, `s_state`, `s_players`, `s_player_count`, `s_initialized`. The mutex
-- only serialises the functions, so it is left out, but for its creation in `Ids.init`.
pub record Vars : Type 0 where
  pub config : DeviceConfig
  pub game_cfg : GameConfig
  pub state : GameStateData
  pub players : List PlayerEntry  -- an array of MAX_PLAYER_ENTRIES
  pub player_count : ℕ
  pub initialized : Bool

-- What `memset(&x, 0, sizeof(x))` and static storage leave.
abbrev pub zero_state : GameStateData
zero_state = record {
  shots_fired = 0;
  hits_landed = 0;
  kills = 0;
  deaths = 0;
  friendly_fire_count = 0;
  rx_count = 0;
  tx_count = 0;
  last_rx_ms = 0;
  hearts_remaining = 0;
  respawning = false;
  respawn_end_time_ms = 0;
  game_start_time_ms = 0;
  game_end_time_ms = 0;
  pause_time_ms = 0;
  game_running = false;
  game_paused = false;
  game_over = false;
  player_score = 0;
  last_heartbeat_ms = 0;
  server_connected = false;
  broadcast_seq_id = 0;
}

abbrev pub zero_game_config : GameConfig
zero_game_config = record {
  win_type = [];
  target_score = 0;
  time_limit_s = 0;
  max_hearts = 0;
  spawn_hearts = 0;
  respawn_cooldown_ms = 0;
  invulnerability_ms = 0;
  damage_in = 0;
  damage_out = 0;
  kill_score = 0;
  hit_score = 0;
  assist_score = 0;
  score_to_win = 0;
  overtime_enabled = false;
  sudden_death = false;
  max_ammo = 0;
  mag_capacity = 0;
  reload_time_ms = 0;
  shot_rate_limit_ms = 0;
  team_play = false;
  friendly_fire_enabled = false;
  unlimited_ammo = false;
  unlimited_respawn = false;
  random_teams_on_start = false;
  hit_sound_enabled = false;
}

abbrev pub zero_device_config : DeviceConfig
zero_device_config = record {
  device_id = 0;
  player_id = 0;
  team_id = 0;
  color_rgb = 0;
  role = weapon;
  device_name = [];
}

abbrev pub zero_player : PlayerEntry
zero_player = record { player_id = 0; name = [] }

-- The variables at start-up, before `game_state_init`.
abbrev pub zero_vars : Vars
zero_vars = record {
  config = zero_device_config;
  game_cfg = zero_game_config;
  state = zero_state;
  players = replicate max_player_entries zero_player;
  player_count = 0;
  initialized = false;
}
