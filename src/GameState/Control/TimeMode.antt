-- ===== src/GameState/Control/TimeMode.antt =====
-- Games that end by the clock (esp32/shared/src/game_state.cpp).
use ray_z.GameState.Control.{
  extend_time, is_game_over, is_running, is_time, pause_game, resume_game, start_game, tick,
}
use ray_z.GameState.Defs.{Vars}
use ray_z.Prelude.{arith, false, now_ms, true, ℕ, ◌*◌, ◌+◌, ◌-◌, ◌<◌, ◌^◌, ◌≡◌, ◌≤◌, codes, str_eq}
use ray_z.Prelude.Int.{pos}
use ray_z.Protocol.{GameConfig}

time_mode : (c : GameConfig) → c.win_type ≡ codes "time" → is_time c ≡ true
unfolding str_eq
time_mode c e = rw e

-- A game in time mode with a limit, started unpaused at a time from which the millisecond clock
-- does not wrap before the end, is over and stopped by a tick once its limit has passed, and
-- unchanged by a tick before that.
pub time_limit_exact :
    (t u : ℕ) (g : Vars)
    → g.game_cfg.win_type ≡ codes "time"
    → 0 < g.game_cfg.time_limit_s
    → now_ms t + g.game_cfg.time_limit_s * 1000 < 2 ^ 32
    → g.state.game_paused ≡ false
    → let started = start_game t g in
      (now_ms u < now_ms t + g.game_cfg.time_limit_s * 1000 → tick u started ≡ started)
      × (now_ms t + g.game_cfg.time_limit_s * 1000 ≤ now_ms u
          → (is_game_over (tick u started) ≡ true) × (is_running (tick u started) ≡ false))
unfolding start_game tick is_game_over is_running
time_limit_exact t u g mode limit fits unpaused =
    let m = time_mode g.game_cfg mode in (λ early. ground arith, λ late. ground arith)

-- In time mode a paused game is unchanged by ticks, and pausing and resuming a running game with an
-- end moves the end by exactly the length of the pause, clears the time of the pause and changes
-- nothing else, if the end still fits 32 bits and the clock does not wrap during the pause.
pub pause_shifts_end :
    (p r u : ℕ) (g : Vars)
    → g.game_cfg.win_type ≡ codes "time"
    → g.state.game_running ≡ true
    → g.state.game_paused ≡ false
    → 0 < g.state.game_end_time_ms
    → now_ms p ≤ now_ms r
    → g.state.game_end_time_ms + (now_ms r - now_ms p) < 2 ^ 32
    → let paused = pause_game p g in
      (tick u paused ≡ paused)
      × (resume_game r paused ≡ record g {
        state = record g.state {
          game_end_time_ms = g.state.game_end_time_ms + (now_ms r - now_ms p);
          pause_time_ms = 0;
        };
      })
unfolding pause_game resume_game tick
pause_shifts_end p r u g mode run unpaused ends order fits =
    let m = time_mode g.game_cfg mode in (ground arith, ground arith)

-- In time mode a limit of 0 means no end, until time is added: the end is then counted from the
-- start of the device and not of the game, so a game that starts `m` minutes or more after
-- power-up is over at the first tick after `m` minutes were added.
pub extend_unlimited_ends :
    (t u m : ℕ) (g : Vars)
    → g.game_cfg.win_type ≡ codes "time"
    → g.game_cfg.time_limit_s ≡ 0
    → g.state.game_paused ≡ false
    → 0 < m
    → m * 60000 < 2 ^ 32
    → m * 60000 ≤ now_ms u
    → (tick u (start_game t g) ≡ start_game t g)
      × (is_game_over (tick u (extend_time (pos m) (start_game t g))) ≡ true)
unfolding start_game tick is_game_over extend_time
extend_unlimited_ends t u m g mode limit unpaused hm fits late =
    let c = time_mode g.game_cfg mode in (ground arith, ground arith)
