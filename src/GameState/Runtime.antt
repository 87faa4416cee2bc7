-- ===== src/GameState/Runtime.antt =====
-- The counters, the hearts and the respawn timer of esp32/shared/src/game_state.cpp.
pub mod Respawn
use ray_z.GameState.Defs.{Vars, zero_state}
use ray_z.Prelude.{
  Bool, false, if◌then◌else◌, leb, ltb, now_ms, sub32, true, u32, ℕ, ◌+◌, ◌-◌, ◌==◌,
}
use ray_z.Protocol.{GameStateData}

unfoldable pub reset_runtime : Vars → Vars
reset_runtime g = record g {
  state = record zero_state { hearts_remaining = g.game_cfg.max_hearts };
}

unfoldable pub record_shot : Vars → Vars
record_shot g = record g { state = record s { shots_fired = u32 (s.shots_fired + 1) } }
  where
    s : GameStateData
    s = g.state

unfoldable pub record_hit : Vars → Vars
record_hit g = record g { state = record s { hits_landed = u32 (s.hits_landed + 1) } }
  where
    s : GameStateData
    s = g.state

unfoldable pub record_kill : Vars → Vars
record_kill g = record g { state = record s { kills = u32 (s.kills + 1) } }
  where
    s : GameStateData
    s = g.state

-- `(uint32_t)(esp_timer_get_time() / 1000) + s_game_cfg.respawn_cooldown_ms`
abbrev pub respawn_end : ℕ → Vars → ℕ
respawn_end t g = u32 (now_ms t + g.game_cfg.respawn_cooldown_ms)

-- `hearts_remaining--` runs only if it is not 0.
unfoldable pub record_death : ℕ → Vars → Vars
record_death t g = record g {
  state = record s {
    deaths = u32 (s.deaths + 1);
    hearts_remaining =
        if ltb 0 s.hearts_remaining then s.hearts_remaining - 1 else s.hearts_remaining;
    respawning = true;
    respawn_end_time_ms = respawn_end t g;
  };
}
  where
    s : GameStateData
    s = g.state

unfoldable pub record_friendly_fire : Vars → Vars
record_friendly_fire g = record g {
  state = record s { friendly_fire_count = u32 (s.friendly_fire_count + 1) };
}
  where
    s : GameStateData
    s = g.state

unfoldable pub reset_stats : Vars → Vars
reset_stats g = record g {
  state = record g.state {
    kills = 0;
    deaths = 0;
    shots_fired = 0;
    hits_landed = 0;
    friendly_fire_count = 0;
    hearts_remaining = g.game_cfg.max_hearts;
    rx_count = 0;
    tx_count = 0;
    last_rx_ms = 0;
  };
}

unfoldable pub get_player_id : Vars → ℕ
get_player_id g = g.config.player_id

unfoldable pub last_rx_ms_ago : ℕ → Vars → ℕ
last_rx_ms_ago t g =
    let now = now_ms t in
    let last = g.state.last_rx_ms in if last == 0 then 0 else if ltb last now then now - last else 0

unfoldable pub get_ammo : Vars → ℕ
get_ammo g = 0

unfoldable pub check_respawn : ℕ → Vars → Bool × Vars
check_respawn t g =
    if g.state.respawning
    then if leb g.state.respawn_end_time_ms (now_ms t)
      then (
        true,
        record g {
          state = record g.state { respawning = false; hearts_remaining = g.game_cfg.max_hearts };
        },
      )
      else (false, g)
    else (false, g)

unfoldable pub is_respawning : Vars → Bool
is_respawning g = g.state.respawning

unfoldable pub start_respawn : ℕ → Vars → Vars
start_respawn t g = record g {
  state = record g.state { respawning = true; respawn_end_time_ms = respawn_end t g };
}

unfoldable pub friendly_fire_counts : Vars → Bool
friendly_fire_counts g = g.game_cfg.friendly_fire_enabled

unfoldable pub set_connected : Bool → Vars → Vars
set_connected connected g = record g { state = record g.state { server_connected = connected } }

unfoldable pub update_heartbeat : ℕ → Vars → Vars
update_heartbeat t g = record g { state = record g.state { last_heartbeat_ms = now_ms t } }

unfoldable pub heartbeat_due : ℕ → Vars → Bool
heartbeat_due t g = leb 10000 (sub32 (now_ms t) g.state.last_heartbeat_ms)

-- `++s_state.broadcast_seq_id`, returned.
unfoldable pub next_seq_id : Vars → ℕ × Vars
next_seq_id g =
    let seq = u32 (g.state.broadcast_seq_id + 1) in
    (seq, record g { state = record g.state { broadcast_seq_id = seq } })
