-- ===== src/GameState/Config/Bounds.antt =====
-- What `game_state_apply_game_config` guarantees of the configuration that it installs.
use ray_z.GameState.Config.{apply_game_config, clamp_u32, clamp}
use ray_z.GameState.Defs.{Vars}
use ray_z.Prelude.{arith, some, ◌≤◌, false, ◌↔◌, ◌≡◌, ℕ}
use ray_z.Protocol.{GameConfig}

-- The ranges that the code clamps to.
pub record IsClamped (c : GameConfig) : Type 0 where
  pub hearts_pos : 1 ≤ c.max_hearts
  pub hearts : c.max_hearts ≤ 99
  pub time : c.time_limit_s ≤ 7200
  pub score : c.score_to_win ≤ 65535
  pub respawn : c.respawn_cooldown_ms ≤ 30000
  pub invulnerable : c.invulnerability_ms ≤ 30000
  pub magazine : c.mag_capacity ≤ 255
  pub ammo : c.max_ammo ≤ 65535
  pub reload : c.reload_time_ms ≤ 30000
  pub rate_low : 50 ≤ c.shot_rate_limit_ms
  pub rate_high : c.shot_rate_limit_ms ≤ 2000

-- Whatever configuration is applied, every clamped field of the installed one lies in its range.
pub apply_game_config-IsClamped :
    (cfg : GameConfig) (g : Vars) → IsClamped (apply_game_config (some cfg) g).0.game_cfg
unfolding apply_game_config clamp clamp_u32
apply_game_config-IsClamped cfg g = record {
  hearts_pos = ground arith;
  hearts = ground arith;
  time = ground arith;
  score = ground arith;
  respawn = ground arith;
  invulnerable = ground arith;
  magazine = ground arith;
  ammo = ground arith;
  reload = ground arith;
  rate_low = ground arith;
  rate_high = ground arith;
}

clamp_in_range : (v lo hi : ℕ) → lo ≤ v → v ≤ hi → clamp v lo hi false ≡ (v, false)
unfolding clamp
clamp_in_range v lo hi h k = ground arith

clamp_u32_in_range : (v lo hi : ℕ) → lo ≤ v → v ≤ hi → clamp_u32 v lo hi ≡ v
unfolding clamp_u32
clamp_u32_in_range v lo hi h k = ground arith

-- A configuration that lies in every range is installed as it is, and no clamping is reported.
pub apply_clamped :
    (cfg : GameConfig) (g : Vars)
    → IsClamped cfg
    → apply_game_config (some cfg) g ≡ (record g { game_cfg = cfg }, some false)
unfolding apply_game_config
apply_clamped cfg g c = rw (
  clamp_in_range cfg.max_hearts 1 99 c.hearts_pos c.hearts,
  clamp_in_range cfg.time_limit_s 0 7200 (omega arith) c.time,
  clamp_in_range cfg.score_to_win 0 65535 (omega arith) c.score,
  clamp_u32_in_range cfg.respawn_cooldown_ms 0 30000 (omega arith) c.respawn,
  clamp_in_range cfg.invulnerability_ms 0 30000 (omega arith) c.invulnerable,
  clamp_in_range cfg.mag_capacity 0 255 (omega arith) c.magazine,
  clamp_in_range cfg.max_ammo 0 65535 (omega arith) c.ammo,
  clamp_in_range cfg.reload_time_ms 0 30000 (omega arith) c.reload,
  clamp_in_range cfg.shot_rate_limit_ms 50 2000 c.rate_low c.rate_high,
)

-- The other way round, a report of no clamping means that only the respawn cooldown may differ
-- from what was asked for: clamping of that field is not reported.
pub not_reported_iff :
    (cfg : GameConfig) (g : Vars)
    → ((apply_game_config (some cfg) g).1 ≡ some false) ↔ (
        (apply_game_config (some cfg) g).0.game_cfg
        ≡ record cfg { respawn_cooldown_ms = clamp_u32 cfg.respawn_cooldown_ms 0 30000 })
unfolding apply_game_config clamp clamp_u32
not_reported_iff cfg g = ground arith
