-- ===== src/Tests/Panel.antt =====
-- The display of a target from its start.
use ray_z.Display.{
  Display, display_round, enter_state, init_display, say_kill, scr_error, scr_idle, st_alert_kill,
  st_error, st_idle, switch_to,
}
use ray_z.Display.Timed.{IsTimed, Tick, alert_ends, run_display, run_display-IsTimed}
use ray_z.Events.{evt_killed, evt_respawn_start}
use ray_z.Prelude.{List, [], arith, false, none, refl, some, true, ◌∷◌, ◌≡◌, ◌≢◌}

abbrev started : Display
unfolding init_display enter_state switch_to
started = record (init_display 100 false) { state = st_idle; screen = scr_idle; state_until_ms = 0 }

init-IsTimed : IsTimed (init_display 100 false)
unfolding init_display enter_state switch_to
init-IsTimed = record { boot_ends = λ _. omega arith; alert_ends = λ e. absurd (cc) }

abbrev evening : List Tick
evening =
    record { events = []; at_time = 950; wifi = true; ws = false; still = false }
    ∷ record {
      events = (1000, evt_killed 5 9) ∷ (1000, evt_respawn_start 5000) ∷ [];
      at_time = 1001;
      wifi = true;
      ws = false;
      still = true;
    }
    ∷ []

run_display-IsTimed_example : IsTimed (run_display evening (init_display 100 false))
run_display-IsTimed_example =
    run_display-IsTimed evening (init_display 100 false)
      ((tt), ((omega arith, (omega arith, tt)), tt)) init-IsTimed

-- The alert of a kill over the idle screen.
abbrev alerting : Display
unfolding init_display enter_state switch_to
alerting = record (init_display 100 true) {
  state = st_alert_kill;
  return_state = st_idle;
  state_until_ms = 2500;
  alert = some (say_kill 7 20);
}

alert_ends_example :
    let after = (display_round [] 2500 true false false alerting).1 in
    (after.alert ≡ none)
    × (after.state_until_ms ≡ 0)
    × ((alerting.return_state ≡ st_error → (after.state ≡ st_error) × (after.screen ≡ scr_error))
        × (alerting.return_state ≢ st_error → (after.state ≡ st_idle) × (after.screen ≡ scr_idle)))
unfolding alerting
alert_ends_example =
    alert_ends 2500 true false false alerting
      (record { boot_ends = λ e. absurd (cc); alert_ends = λ _. omega arith }) refl (omega arith)
