-- ===== src/WsServer/Task/Respawns.antt =====
-- Who notices the end of a respawn: the game task or the web task
-- (esp32/target/src/tasks/game_task.cpp and ws_task.cpp).
use ray_z.GameState.Control.{tick, tick_score, tick_time}
use ray_z.GameState.Defs.{Vars}
use ray_z.GameState.Runtime.{check_respawn, is_respawning, next_seq_id}
use ray_z.Hit.{game_round}
use ray_z.Prelude.{[], arith, false, now_ms, true, ℕ, ◌≡◌, ◌≢◌, ◌≤◌, if◌then◌else◌, ◌∙◌}
use ray_z.WsServer.Messages.{broadcast_respawn}
use ray_z.WsServer.Task.{RoundTimes, tell_respawn}

tick-respawning :
    (t : ℕ) (g : Vars)
    → ((tick t g).state.respawning ≡ g.state.respawning)
      × ((tick t g).state.respawn_end_time_ms ≡ g.state.respawn_end_time_ms)
unfolding tick tick_time tick_score
tick-respawning t g = (ground arith, ground arith)

check_respawn-respawning :
    (u : ℕ) (g : Vars)
    → g.state.respawning ≡ true
    → g.state.respawn_end_time_ms ≤ now_ms u
    → (if is_respawning g then (check_respawn u g).1 else g).state.respawning ≡ false
unfolding is_respawning check_respawn
check_respawn-respawning u g down over = rw down (ground arith)

game_round-respawning :
    (t u : ℕ) (g : Vars)
    → g.state.respawning ≡ true
    → g.state.respawn_end_time_ms ≤ now_ms u
    → (game_round t u g).state.respawning ≡ false
unfolding game_round
game_round-respawning t u g down over =
    let (same, end) = tick-respawning t g in
    check_respawn-respawning u (tick t g) (same ∙ down) (rw end over)

tell_respawn-up :
    (ts : RoundTimes) (g : Vars) → g.state.respawning ≡ false → (tell_respawn ts g).0 ≡ []
unfolding tell_respawn check_respawn
tell_respawn-up ts g up = ground arith

-- If the web task is the first to look at or after the end of a respawn, the browsers are told and
-- the hearts of the configuration are restored; if a round of the game task looks first, at or
-- after that end, the web task sends no respawn message in its next round.
pub respawn_message :
    (t u : ℕ) (ts : RoundTimes) (g : Vars)
    → g.state.respawning ≡ true
    → g.state.respawn_end_time_ms ≤ now_ms u
    → g.state.respawn_end_time_ms ≤ now_ms ts.at_check
    → (((tell_respawn ts g).0 ≢ [])
        × ((tell_respawn ts g).1.state.hearts_remaining ≡ g.game_cfg.max_hearts)
        × ((tell_respawn ts g).1.state.respawning ≡ false))
      × ((tell_respawn ts (game_round t u g)).0 ≡ [])
unfolding tell_respawn check_respawn broadcast_respawn next_seq_id
respawn_message t u ts g down over late = (
  (ground arith, ground arith, ground arith),
  tell_respawn-up ts (game_round t u g) (game_round-respawning t u g down over),
)
