-- ===== src/GameState/Config.antt =====
-- The game configuration: `game_state_apply_game_config` and the defaults
-- (esp32/shared/src/game_state.cpp).
pub mod Bounds
use ray_z.GameState.Defs.{Vars, zero_game_config}
use ray_z.Prelude.{Bool, Option, codes, copy_str, false, if◌then◌else◌, ltb, none, some, true, ℕ}
use ray_z.Protocol.{GameConfig}

-- The lambdas `clamp8` and `clamp16`: a value and the flag `local_clamped`, which they set.
unfoldable pub clamp : ℕ → ℕ → ℕ → Bool → ℕ × Bool
clamp v lo hi flag = if ltb v lo then (lo, true) else if ltb hi v then (hi, true) else (v, flag)

-- `clamp_u32` touches no flag.
unfoldable pub clamp_u32 : ℕ → ℕ → ℕ → ℕ
clamp_u32 v lo hi = if ltb v lo then lo else if ltb hi v then hi else v

-- The clamped copy of a configuration, and `local_clamped`.
unfoldable pub clamp_config : GameConfig → GameConfig × Bool
clamp_config cfg =
    let (max_hearts, c1) = clamp cfg.max_hearts 1 99 false in
    let (time_limit_s, c2) = clamp cfg.time_limit_s 0 7200 c1 in
    let (score_to_win, c3) = clamp cfg.score_to_win 0 65535 c2 in
    let respawn_cooldown_ms = clamp_u32 cfg.respawn_cooldown_ms 0 30000 in
    let (invulnerability_ms, c4) = clamp cfg.invulnerability_ms 0 30000 c3 in
    let (mag_capacity, c5) = clamp cfg.mag_capacity 0 255 c4 in
    let (max_ammo, c6) = clamp cfg.max_ammo 0 65535 c5 in
    let (reload_time_ms, c7) = clamp cfg.reload_time_ms 0 30000 c6 in
    let (shot_rate_limit_ms, c8) = clamp cfg.shot_rate_limit_ms 50 2000 c7 in
    (
      record cfg {
        max_hearts = max_hearts;
        time_limit_s = time_limit_s;
        score_to_win = score_to_win;
        respawn_cooldown_ms = respawn_cooldown_ms;
        invulnerability_ms = invulnerability_ms;
        mag_capacity = mag_capacity;
        max_ammo = max_ammo;
        reload_time_ms = reload_time_ms;
        shot_rate_limit_ms = shot_rate_limit_ms;
      },
      c8,
    )

-- `cfg` may be NULL. The second component is what is stored through `clamped`, if anything.
unfoldable pub apply_game_config : Option GameConfig → Vars → Vars × Option Bool
unfolding clamp_config
apply_game_config none g = (g, none)
apply_game_config (some cfg) g =
    let (nc, local_clamped) = clamp_config cfg in (record g { game_cfg = nc }, some local_clamped)

-- The configuration that `game_state_load_default_game_config` builds.
abbrev pub default_game_config : GameConfig
default_game_config = record zero_game_config {
  win_type = copy_str 24 (codes "score");
  target_score = 100;
  time_limit_s = 600;
  max_hearts = 5;
  spawn_hearts = 3;
  respawn_cooldown_ms = 10000;
  invulnerability_ms = 500;
  damage_in = 1;
  damage_out = 1;
  kill_score = 1;
  hit_score = 1;
  assist_score = 0;
  score_to_win = 0;
  overtime_enabled = false;
  sudden_death = false;
  max_ammo = 30;
  mag_capacity = 30;
  reload_time_ms = 2500;
  shot_rate_limit_ms = 100;
  team_play = false;
  friendly_fire_enabled = false;
  unlimited_ammo = false;
  unlimited_respawn = true;
  random_teams_on_start = false;
  hit_sound_enabled = true;
}

unfoldable pub load_default_game_config : Vars → Vars
unfolding apply_game_config
load_default_game_config g = (apply_game_config (some default_game_config) g).0
