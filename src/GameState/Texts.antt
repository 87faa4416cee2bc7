-- ===== src/GameState/Texts.antt =====
-- The JSON texts of esp32/shared/src/game_state.cpp. `snprintf(buffer, max_len, ...)` is the text
-- that it leaves in the buffer, with the length that the function returns: -1 is `none`.
pub mod Reader
pub mod Members
use ray_z.GameState.Defs.{Vars}
use ray_z.Prelude.{
  Bool, Bytes, Option, [], codes, copy_str, false, if◌then◌else◌, length, ltb, none, now_ms,
  print_number, some, true, u32, ℕ, ◌++◌, ◌/◌, ◌==◌,
}
use ray_z.Protocol.{GameConfig}

-- `len < (int)max_len ? len : -1`, and the text in the buffer. No buffer is `max_len` 0 here too.
unfoldable pub into_buffer : ℕ → Bytes → Option ℕ × Bytes
into_buffer max_len s =
    if max_len == 0
    then (none, [])
    else (if ltb (length s) max_len then some (length s) else none, copy_str max_len s)

abbrev pub bool_text : Bool → Bytes
bool_text true = codes "true"
bool_text false = codes "false"

unfoldable pub config_text : Bool → Vars → Bytes
config_text clamp_noted g =
    codes "{"
    ++ (codes "\"device_id\":"
        ++ (print_number g.config.device_id
            ++ (codes ",\"player_id\":"
                ++ (print_number g.config.player_id
                    ++ (codes ",\"team_id\":"
                        ++ (print_number g.config.team_id
                            ++ (codes ",\"color_rgb\":"
                                ++ (print_number g.config.color_rgb
                                    ++ (codes ",\"clamped\":"
                                        ++ (bool_text clamp_noted ++ codes "}"))))))))))

unfoldable pub config_to_json : ℕ → Bool → Vars → Option ℕ × Bytes
config_to_json max_len clamp_noted g = into_buffer max_len (config_text clamp_noted g)

-- `t` is the reading of the timer.
unfoldable pub state_text : ℕ → Vars → Bytes
state_text t g =
    codes "{"
    ++ (codes "\"shots\":"
        ++ (print_number g.state.shots_fired
            ++ (codes ",\"hits\":"
                ++ (print_number g.state.hits_landed
                    ++ (codes ",\"kills\":"
                        ++ (print_number g.state.kills
                            ++ (codes ",\"deaths\":"
                                ++ (print_number g.state.deaths
                                    ++ (codes ",\"hearts\":"
                                        ++ (print_number g.state.hearts_remaining
                                            ++ (codes ",\"score\":"
                                                ++ (print_number g.state.player_score
                                                    ++ (codes ",\"respawning\":"
                                                        ++ (bool_text g.state.respawning
                                                            ++ (codes ",\"game_running\":"
                                                            ++ (bool_text g.state.game_running
                                                            ++ (codes ",\"game_over\":"
                                                            ++ (bool_text g.state.game_over
                                                            ++ (codes ",\"server_connected\":"
                                                            ++ (bool_text g.state.server_connected
                                                            ++ (codes ",\"uptime\":"
                                                            ++ (print_number (now_ms t)
                                                            ++ codes "}"))))))))))))))))))))))

unfoldable pub to_json : ℕ → ℕ → Vars → Option ℕ × Bytes
to_json max_len t g = into_buffer max_len (state_text t g)

unfoldable pub create_heartbeat_json : ℕ → ℕ → Vars → Option ℕ × Bytes
create_heartbeat_json max_len t g = to_json max_len t g

unfoldable pub create_register_json : ℕ → Vars → Option ℕ × Bytes
create_register_json max_len g = config_to_json max_len false g

unfoldable pub create_hit_report_json : ℕ → ℕ → ℕ → Option ℕ × Bytes
create_hit_report_json max_len shooter_id t = into_buffer max_len (
    codes "{\"shooter_id\":"
    ++ (print_number shooter_id
        ++ (codes ",\"ts\":" ++ (print_number (u32 (t / 1000)) ++ codes "}"))))

unfoldable pub create_shot_fired_json : ℕ → ℕ → Vars → Option ℕ × Bytes
create_shot_fired_json max_len t g = into_buffer max_len (
    codes "{\"shots\":"
    ++ (print_number g.state.shots_fired
        ++ (codes ",\"ts\":" ++ (print_number (u32 (t / 1000)) ++ codes "}"))))

-- `none` stands for NULL, and for the result false; otherwise the configuration, and the flag that
-- tells of a clamped field.
unfoldable pub config_from_json : Option Bytes → Vars → Option (GameConfig × Bool)
config_from_json none g = none
config_from_json (some json) g = some (g.game_cfg, false)
