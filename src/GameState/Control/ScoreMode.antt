-- ===== src/GameState/Control/ScoreMode.antt =====
-- Games that end by the score, and elimination (esp32/shared/src/game_state.cpp).
use ray_z.GameState.Control.{
  can_shoot, can_take_damage, is_game_over, is_last_man, is_score, is_time, tick,
}
use ray_z.GameState.Defs.{Vars}
use ray_z.GameState.Runtime.{check_respawn, record_death}
use ray_z.Prelude.{arith, false, now_ms, true, ℕ, ◌*◌, ◌+◌, ◌<◌, ◌^◌, ◌↔◌, ◌≡◌, ◌≤◌, codes, str_eq}
use ray_z.Protocol.{GameConfig}

-- The win types exclude one another.
score_mode :
    (c : GameConfig) → c.win_type ≡ codes "score" → (is_score c ≡ true) × (is_time c ≡ false)
unfolding str_eq
score_mode c e = (rw e, rw e)

last_man_mode :
    (c : GameConfig)
    → c.win_type ≡ codes "last_man_standing"
    → (is_last_man c ≡ true) × (is_time c ≡ false) × (is_score c ≡ false)
unfolding str_eq
last_man_mode c e = (rw e, rw e, rw e)

-- A running, unpaused game in score mode whose score fits 32 bits is over after a tick exactly when
-- kills and hits, weighted by their scores, reach the target; the tick stores that score.
pub score_target_exact :
    (t : ℕ) (g : Vars)
    → g.game_cfg.win_type ≡ codes "score"
    → g.state.game_running ≡ true
    → g.state.game_over ≡ false
    → g.state.game_paused ≡ false
    → g.state.kills * g.game_cfg.kill_score + g.state.hits_landed * g.game_cfg.hit_score < 2 ^ 32
    → let points =
        g.state.kills * g.game_cfg.kill_score + g.state.hits_landed * g.game_cfg.hit_score in
      ((is_game_over (tick t g) ≡ true) ↔ (g.game_cfg.target_score ≤ points))
      × ((tick t g).state.player_score ≡ points)
unfolding tick is_game_over
score_target_exact t g mode run over unpaused fits =
    let m = score_mode g.game_cfg mode in (ground arith, ground arith)

-- In last-man-standing mode a player that loses the last heart can neither shoot nor be hit, and
-- no tick ends the game. But the respawn timer runs in this mode too: the first check after the
-- cooldown gives all hearts back and the player takes part again.
pub elimination_is_undone :
    (t u v : ℕ) (g : Vars)
    → g.game_cfg.win_type ≡ codes "last_man_standing"
    → g.state.hearts_remaining ≡ 1
    → 0 < g.game_cfg.max_hearts
    → now_ms t + g.game_cfg.respawn_cooldown_ms < 2 ^ 32
    → now_ms t + g.game_cfg.respawn_cooldown_ms ≤ now_ms u
    → let out = record_death t g in
      (can_shoot out ≡ false)
      × (can_take_damage out ≡ false)
      × (tick v out ≡ out)
      × (can_shoot (check_respawn u out).1 ≡ true)
      × (can_take_damage (check_respawn u out).1 ≡ true)
unfolding record_death can_shoot can_take_damage check_respawn tick
elimination_is_undone t u v g mode one hearts fits late =
    let m = last_man_mode g.game_cfg mode in
    (ground arith, ground arith, ground arith, ground arith, ground arith)
