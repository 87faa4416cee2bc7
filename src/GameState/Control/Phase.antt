-- ===== src/GameState/Control/Phase.antt =====
-- The phases of a game (idle, running, paused, over) under any sequence of calls
-- (esp32/shared/src/game_state.cpp).
use ray_z.GameState.Control.{
  extend_time, pause_game, resume_game, start_game, stop_game, tick, update_target,
}
use ray_z.GameState.Defs.{Vars}
use ray_z.GameState.Runtime.{
  check_respawn, next_seq_id, record_death, record_friendly_fire, record_hit, record_kill,
  record_shot, reset_runtime, reset_stats, set_connected, start_respawn, update_heartbeat,
}
use ray_z.Prelude.{Bool, List, [], arith, false, true, ℕ, ◌∷◌, ◌≡◌}
use ray_z.Prelude.Int.{ℤ}

-- A call that changes the variables; the argument of a timed one is the timer.
pub data Call : Type 0 where
  reset stats shot hit kill friendly_fire stop seq : Call
  death respawn check start pause resume beat clock_tick : ℕ → Call
  extend target : ℤ → Call
  connect : Bool → Call

pub call : Call → Vars → Vars
call Call.reset g = reset_runtime g
call Call.stats g = reset_stats g
call Call.shot g = record_shot g
call Call.hit g = record_hit g
call Call.kill g = record_kill g
call Call.friendly_fire g = record_friendly_fire g
call Call.stop g = stop_game g
call Call.seq g = (next_seq_id g).1
call (Call.death t) g = record_death t g
call (Call.respawn t) g = start_respawn t g
call (Call.check t) g = (check_respawn t g).1
call (Call.start t) g = start_game t g
call (Call.pause t) g = pause_game t g
call (Call.resume t) g = resume_game t g
call (Call.beat t) g = update_heartbeat t g
call (Call.clock_tick t) g = tick t g
call (Call.extend z) g = extend_time z g
call (Call.target z) g = update_target z g
call (Call.connect b) g = set_connected b g

pub calls : List Call → Vars → Vars
unfolding call
calls [] g = g
calls (c ∷ cs) g = calls cs (call c g)

-- A game that is over does not run, and only a running game is paused.
pub record IsPhase (g : Vars) : Type 0 where
  pub over_stopped : g.state.game_over ≡ true → g.state.game_running ≡ false
  pub paused_running : g.state.game_paused ≡ true → g.state.game_running ≡ true

call-IsPhase : (c : Call) (g : Vars) → IsPhase g → IsPhase (call c g)
unfolding call reset_runtime reset_stats record_shot record_hit record_kill record_friendly_fire
    stop_game next_seq_id record_death start_respawn check_respawn start_game pause_game resume_game
    update_heartbeat tick extend_time update_target set_connected
call-IsPhase Call.reset g h = ground arith
call-IsPhase _ g h = ground arith

-- No sequence of calls leads from a consistent phase to one that is over and running, or paused
-- and not running.
pub calls-IsPhase : (cs : List Call) (g : Vars) → IsPhase g → IsPhase (calls cs g)
unfolding calls
calls-IsPhase [] g h = h
calls-IsPhase (c ∷ cs) g h = calls-IsPhase cs (call c g) (call-IsPhase c g h)
