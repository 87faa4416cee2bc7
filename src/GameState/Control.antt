-- ===== src/GameState/Control.antt =====
-- Game control and win conditions (esp32/shared/src/game_state.cpp): start, stop, pause, resume,
-- extend, update of the target, the periodic tick, and the tests that the tasks ask.
pub mod Phase
pub mod TimeMode
pub mod ScoreMode
use ray_z.GameState.Defs.{Vars}
use ray_z.Prelude.{
  Bool, codes, false, if◌then◌else◌, leb, ltb, not, now_ms, str_eq, sub32, true, u16, u32, ℕ, ◌&&◌,
  ◌*◌, ◌+◌, ◌||◌,
}
use ray_z.Prelude.Int.{scale, to_word, ℤ}
use ray_z.Protocol.{GameConfig}

abbrev pub is_time : GameConfig → Bool
is_time c = str_eq c.win_type (codes "time")

abbrev pub is_score : GameConfig → Bool
is_score c = str_eq c.win_type (codes "score")

abbrev pub is_last_man : GameConfig → Bool
is_last_man c = str_eq c.win_type (codes "last_man_standing")

unfoldable pub start_game : ℕ → Vars → Vars
start_game t g =
    let now = now_ms t in
    record g {
      state = record g.state {
        game_running = true;
        game_over = false;
        game_start_time_ms = now;
        game_end_time_ms =
            if is_time g.game_cfg && ltb 0 g.game_cfg.time_limit_s
            then u32 (now + g.game_cfg.time_limit_s * 1000)
            else 0;
        hearts_remaining =
            if is_last_man g.game_cfg then g.game_cfg.spawn_hearts else g.state.hearts_remaining;
      };
    }

unfoldable pub stop_game : Vars → Vars
stop_game g = record g {
  state = record g.state { game_running = false; game_paused = false; game_over = true };
}

unfoldable pub pause_game : ℕ → Vars → Vars
pause_game t g =
    if g.state.game_running && not g.state.game_paused
    then record g { state = record g.state { game_paused = true; pause_time_ms = now_ms t } }
    else g

unfoldable pub resume_game : ℕ → Vars → Vars
resume_game t g =
    if g.state.game_running && g.state.game_paused
    then record g {
      state = record g.state {
        game_end_time_ms =
            if is_time g.game_cfg && ltb 0 g.state.game_end_time_ms
            then u32 (g.state.game_end_time_ms + sub32 (now_ms t) g.state.pause_time_ms)
            else g.state.game_end_time_ms;
        game_paused = false;
        pause_time_ms = 0;
      };
    }
    else g

-- The `int` products `additional_minutes * 60` and `* 60 * 1000` must not overflow; they are
-- converted to the width of the field that they are added to.
unfoldable pub extend_time : ℤ → Vars → Vars
extend_time additional_minutes g =
    if g.state.game_running && is_time g.game_cfg
    then record g {
      state = record g.state {
        game_end_time_ms =
            u32 (g.state.game_end_time_ms + to_word 32 (scale 60000 additional_minutes));
      };
      game_cfg = record g.game_cfg {
        time_limit_s = u16 (g.game_cfg.time_limit_s + to_word 16 (scale 60 additional_minutes));
      };
    }
    else g

unfoldable pub update_target : ℤ → Vars → Vars
update_target new_target g =
    if g.state.game_running && is_score g.game_cfg
    then record g { game_cfg = record g.game_cfg { target_score = to_word 16 new_target } }
    else g

-- The score that a tick computes in score mode, in `uint32_t`.
abbrev pub score : Vars → ℕ
score g =
    u32 (
      u32 (g.state.kills * g.game_cfg.kill_score)
      + u32 (g.state.hits_landed * g.game_cfg.hit_score))

-- The three arms of `game_state_tick`; the last one only logs.
unfoldable pub tick_time : ℕ → Vars → Vars
tick_time t g =
    if ltb 0 g.state.game_end_time_ms && leb g.state.game_end_time_ms (now_ms t)
    then record g { state = record g.state { game_over = true; game_running = false } }
    else g

unfoldable pub tick_score : Vars → Vars
tick_score g =
    let g' = record g { state = record g.state { player_score = score g } } in
    if leb g.game_cfg.target_score (score g)
    then record g' { state = record g'.state { game_over = true; game_running = false } }
    else g'

unfoldable pub tick : ℕ → Vars → Vars
unfolding tick_time tick_score
tick t g =
    if not g.state.game_running || g.state.game_over || g.state.game_paused
    then g
    else if is_time g.game_cfg
    then tick_time t g
    else if is_score g.game_cfg
    then tick_score g
    else g

unfoldable pub is_running : Vars → Bool
is_running g = g.state.game_running

unfoldable pub is_paused : Vars → Bool
is_paused g = g.state.game_paused

unfoldable pub is_game_over : Vars → Bool
is_game_over g = g.state.game_over

unfoldable pub can_shoot : Vars → Bool
can_shoot g =
    if is_last_man g.game_cfg then ltb 0 g.state.hearts_remaining else not g.state.respawning

unfoldable pub can_take_damage : Vars → Bool
can_take_damage g = if is_last_man g.game_cfg then ltb 0 g.state.hearts_remaining else true
