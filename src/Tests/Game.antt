-- ===== src/Tests/Game.antt =====
-- Games by the clock, by score and by elimination.
use ray_z.GameState.Config.{apply_game_config}
use ray_z.GameState.Config.Bounds.{IsClamped, apply_game_config-IsClamped}
use ray_z.GameState.Control.{is_game_over, is_running, pause_game, resume_game, start_game, tick}
use ray_z.GameState.Control.Phase.{Call}
use ray_z.GameState.Control.ScoreMode.{score_target_exact}
use ray_z.GameState.Control.TimeMode.{pause_shifts_end, time_limit_exact}
use ray_z.GameState.Defs.{Vars, zero_game_config, zero_state}
use ray_z.GameState.Roster.{get_player_count, get_player_name, set_player_name}
use ray_z.GameState.Roster.Lookup.{IsRoster, get-set_player_name}
use ray_z.GameState.Runtime.{check_respawn, is_respawning, record_death}
use ray_z.GameState.Runtime.Respawn.{respawn_after_cooldown}
use ray_z.Prelude.{
  List, [], arith, codes, copy_str, false, if◌then◌else◌, inr, now_ms, refl, some, true, u32, ◌*◌,
  ◌+◌, ◌-◌, ◌<◌, ◌==◌, ◌↔◌, ◌∷◌, ◌≡◌, ◌≤◌,
}
use ray_z.Protocol.{player_name_len}
use ray_z.Tests.Data.{alice}

abbrev timed : Vars
timed = record alice {
  game_cfg = record zero_game_config { win_type = codes "time"; time_limit_s = 60; max_hearts = 3 };
}

abbrev playing : Vars
playing = record timed {
  state = record zero_state { game_running = true; game_end_time_ms = 61000; hearts_remaining = 3 };
}

abbrev scored : Vars
scored = record playing {
  game_cfg = record zero_game_config {
    win_type = codes "score";
    target_score = 20;
    kill_score = 10;
    hit_score = 5;
  };
  state = record zero_state { game_running = true; kills = 2; hits_landed = 1 };
}

abbrev standing : Vars
standing = record playing {
  game_cfg = record zero_game_config {
    win_type = codes "last_man_standing";
    max_hearts = 3;
    respawn_cooldown_ms = 5000;
  };
  state = record zero_state { game_running = true; hearts_remaining = 1 };
}

abbrev pub moves : List Call
moves = Call.start 1000 ∷ Call.pause 2000 ∷ Call.resume 3000 ∷ Call.clock_tick 4000 ∷ Call.stop ∷ []

time_limit_exact_example :
    let started = start_game 1000000 timed in
    (now_ms 60999000 < now_ms 1000000 + 60 * 1000 → tick 60999000 started ≡ started)
    × (now_ms 1000000 + 60 * 1000 ≤ now_ms 60999000
        → (is_game_over (tick 60999000 started) ≡ true)
          × (is_running (tick 60999000 started) ≡ false))
time_limit_exact_example =
    time_limit_exact 1000000 60999000 timed refl (omega arith) (omega arith) refl

pause_shifts_end_example :
    (tick 70000000 (pause_game 2000000 playing) ≡ pause_game 2000000 playing)
    × (resume_game 5000000 (pause_game 2000000 playing) ≡ record playing {
      state = record playing.state {
        game_end_time_ms = 61000 + (now_ms 5000000 - now_ms 2000000);
        pause_time_ms = 0;
      };
    })
pause_shifts_end_example =
    pause_shifts_end 2000000 5000000 70000000 playing refl refl refl (omega arith) (omega arith)
      (omega arith)

abbrev unlimited : Vars
unlimited = record timed { game_cfg = record timed.game_cfg { time_limit_s = 0 } }

score_target_exact_example :
    ((is_game_over (tick 1000 scored) ≡ true) ↔ (20 ≤ 2 * 10 + 1 * 5))
    × ((tick 1000 scored).state.player_score ≡ 2 * 10 + 1 * 5)
score_target_exact_example = score_target_exact 1000 scored refl refl refl refl (omega arith)

respawn_after_cooldown_example :
    let down = record_death 1000000 standing in
    (now_ms 7000000 < now_ms 1000000 + 5000 → check_respawn 7000000 down ≡ (false, down))
    × (now_ms 1000000 + 5000 ≤ now_ms 7000000
        → ((check_respawn 7000000 down).0 ≡ true)
          × (is_respawning (check_respawn 7000000 down).1 ≡ false)
          × ((check_respawn 7000000 down).1.state.hearts_remaining ≡ 3)
          × ((check_respawn 7000000 down).1.state.deaths ≡ u32 (0 + 1)))
respawn_after_cooldown_example = respawn_after_cooldown 1000000 7000000 standing (omega arith)

apply_game_config-IsClamped_example :
    IsClamped (apply_game_config (some standing.game_cfg) alice).0.game_cfg
apply_game_config-IsClamped_example = apply_game_config-IsClamped standing.game_cfg alice

alice-IsRoster : IsRoster alice
alice-IsRoster = record { storage = refl; fits = omega arith }

get-set_player_name_example :
    get_player_name 7 (set_player_name 7 (some (codes "Bob")) alice)
    ≡ (if 7 == 7 then some (copy_str player_name_len (codes "Bob")) else get_player_name 7 alice)
unfolding get_player_count
get-set_player_name_example =
    get-set_player_name 7 7 (codes "Bob") alice alice-IsRoster (inr (omega arith))
