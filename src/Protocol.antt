-- ===== src/Protocol.antt =====
-- The constants of esp32/shared/include/protocol_config.h and the structures of
-- esp32/shared/include/game_protocol.h that the components share.
use ray_z.Prelude.{ℕ, ◌-◌, ◌^◌, Bool, Bytes}

abbrev pub message_total_bits : ℕ
message_total_bits = 32

abbrev pub samples_per_bit : ℕ
samples_per_bit = 3

abbrev pub sample_interval_ms : ℕ
sample_interval_ms = 1

abbrev pub photodiode_buffer_size : ℕ
photodiode_buffer_size = message_total_bits

-- `(1 << PLAYER_ID_BITS) - 1` and `(1 << DEVICE_ID_BITS) - 1`
abbrev pub max_player_id : ℕ
max_player_id = 2 ^ 5 - 1

abbrev pub max_device_id : ℕ
max_device_id = 2 ^ 6 - 1

abbrev pub hash_xor_seed : ℕ
hash_xor_seed = 0b10101010

abbrev pub hash_offset : ℕ
hash_offset = 1

pub data DeviceRole : Type 0 where
  weapon target : DeviceRole

-- `DeviceConfig`. A `char` array is the string that it holds.
pub record DeviceConfig : Type 0 where
  pub device_id : ℕ  -- uint8
  pub player_id : ℕ  -- uint8
  pub team_id : ℕ  -- uint8
  pub color_rgb : ℕ  -- uint32
  pub role : DeviceRole
  pub device_name : Bytes  -- char[32]

pub record GameConfig : Type 0 where
  pub win_type : Bytes  -- char[24]
  pub target_score : ℕ  -- uint16
  pub time_limit_s : ℕ  -- uint16
  pub max_hearts : ℕ  -- uint8
  pub spawn_hearts : ℕ  -- uint8
  pub respawn_cooldown_ms : ℕ  -- uint32
  pub invulnerability_ms : ℕ  -- uint16
  pub damage_in : ℕ  -- uint8
  pub damage_out : ℕ  -- uint8
  pub kill_score : ℕ  -- uint8
  pub hit_score : ℕ  -- uint8
  pub assist_score : ℕ  -- uint8
  pub score_to_win : ℕ  -- uint16
  pub overtime_enabled : Bool
  pub sudden_death : Bool
  pub max_ammo : ℕ  -- uint16
  pub mag_capacity : ℕ  -- uint8
  pub reload_time_ms : ℕ  -- uint16
  pub shot_rate_limit_ms : ℕ  -- uint16
  pub team_play : Bool
  pub friendly_fire_enabled : Bool
  pub unlimited_ammo : Bool
  pub unlimited_respawn : Bool
  pub random_teams_on_start : Bool
  pub hit_sound_enabled : Bool

abbrev pub max_player_entries : ℕ
max_player_entries = 16

abbrev pub player_name_len : ℕ
player_name_len = 16

pub record PlayerEntry : Type 0 where
  pub player_id : ℕ  -- uint8
  pub name : Bytes  -- char[16]

pub record GameStateData : Type 0 where
  pub shots_fired : ℕ  -- uint32
  pub hits_landed : ℕ  -- uint32
  pub kills : ℕ  -- uint32
  pub deaths : ℕ  -- uint32
  pub friendly_fire_count : ℕ  -- uint32
  pub rx_count : ℕ  -- uint32
  pub tx_count : ℕ  -- uint32
  pub last_rx_ms : ℕ  -- uint32
  pub hearts_remaining : ℕ  -- uint8
  pub respawning : Bool
  pub respawn_end_time_ms : ℕ  -- uint32
  pub game_start_time_ms : ℕ  -- uint32
  pub game_end_time_ms : ℕ  -- uint32
  pub pause_time_ms : ℕ  -- uint32
  pub game_running : Bool
  pub game_paused : Bool
  pub game_over : Bool
  pub player_score : ℕ  -- uint32
  pub last_heartbeat_ms : ℕ  -- uint32
  pub server_connected : Bool
  pub broadcast_seq_id : ℕ  -- uint32
