-- ===== src/Display/Timed.antt =====
-- No boot screen and no alert stays for ever (esp32/shared/src/display_manager.cpp).
use ray_z.Display.{
  Display, check_expiry, enter_state, expire, handle_event, interrupt, is_alert, is_state,
  poll_connection, render, show_alert, st_boot, switch_to, display_round, drain, scr_error,
  scr_idle, st_error, st_idle, DmState, st_alert_disconnected, st_alert_hit, st_alert_kill,
  st_alert_killed, st_alert_msg, st_alert_ready, st_connecting, st_factory_reset, st_respawning,
}
use ray_z.Events.{
  DmEvent, evt_error_clear, evt_error_set, evt_factory_reset, evt_health_update, evt_hit, evt_kill,
  evt_killed, evt_msg, evt_none, evt_respawn_complete, evt_respawn_start, evt_score_update,
  evt_wifi_connected, evt_wifi_disconnected,
}
use ray_z.Prelude.{
  Bool, arith, true, ℕ, ◌+◌, ◌<◌, ◌^◌, ◌≡◌, ◌≢◌, List, [], none, ◌∷◌, ◌≤◌, Bool-cases, false,
  if◌then◌else◌, inl, inr, refl, ap,
}

-- The states that only a deadline ends have one.
pub record IsTimed (d : Display) : Type 0 where
  pub boot_ends : is_state d.state st_boot ≡ true → d.state_until_ms ≢ 0
  pub alert_ends : is_alert d.state ≡ true → d.state_until_ms ≢ 0

handle_event-IsTimed :
    (now : ℕ) (e : DmEvent) (d : Display)
    → now + 2000 < 2 ^ 32
    → IsTimed d
    → IsTimed (handle_event now e d)
unfolding handle_event enter_state switch_to show_alert interrupt
handle_event-IsTimed now evt_none d fits h = ground (arith, fits, h)
handle_event-IsTimed now evt_hit d fits h = ground (arith, fits, h)
handle_event-IsTimed now evt_error_clear d fits h = ground (arith, fits, h)
handle_event-IsTimed now evt_respawn_complete d fits h = ground (arith, fits, h)
handle_event-IsTimed now evt_wifi_connected d fits h = ground (arith, fits, h)
handle_event-IsTimed now evt_wifi_disconnected d fits h = ground (arith, fits, h)
handle_event-IsTimed now (evt_msg line) d fits h = ground (arith, fits, h)
handle_event-IsTimed now (evt_error_set code) d fits h = ground (arith, fits, h)
handle_event-IsTimed now (evt_respawn_start ms) d fits h = ground (arith, fits, h)
handle_event-IsTimed now (evt_factory_reset pct) d fits h = ground (arith, fits, h)
handle_event-IsTimed now (evt_killed p q) d fits h = ground (arith, fits, h)
handle_event-IsTimed now (evt_kill p q) d fits h = ground (arith, fits, h)
handle_event-IsTimed now (evt_health_update p q) d fits h = ground (arith, fits, h)
handle_event-IsTimed now (evt_score_update p q) d fits h = ground (arith, fits, h)

poll-IsTimed :
    (t : ℕ) (wifi ws : Bool) (d : Display) → IsTimed d → IsTimed (poll_connection t wifi ws d)
unfolding poll_connection enter_state switch_to
poll-IsTimed t wifi ws d h = ground (arith, h)

check_expiry-IsTimed :
    (t : ℕ) (wifi : Bool) (d : Display) → IsTimed d → IsTimed (check_expiry t wifi d)
unfolding check_expiry expire enter_state switch_to
check_expiry-IsTimed t wifi d h = ground (arith, h)

render-IsTimed : (t : ℕ) (d : Display) → IsTimed d → IsTimed (render t d)
unfolding render switch_to
render-IsTimed t d h = ground (arith, h)

-- What one round of the task meets.
pub record Tick : Type 0 where
  pub events : List (ℕ × DmEvent)
  pub at_time : ℕ
  pub wifi : Bool
  pub ws : Bool
  pub still : Bool

-- The clock does not wrap while an alert is shown.
abbrev pub Fits : List (ℕ × DmEvent) → Type 0
Fits [] = Unit
Fits ((now, e) ∷ es) = (now + 2000 < 2 ^ 32) × Fits es

abbrev pub AllFit : List Tick → Type 0
AllFit [] = Unit
AllFit (r ∷ rs) = Fits r.events × AllFit rs

abbrev pub run_display : List Tick → Display → Display
run_display [] d = d
run_display (r ∷ rs) d = run_display rs (display_round r.events r.at_time r.wifi r.ws r.still d).1

drain-IsTimed : (es : List (ℕ × DmEvent)) (d : Display) → Fits es → IsTimed d → IsTimed (drain es d)
drain-IsTimed [] d fit h = h
drain-IsTimed ((now, e) ∷ es) d fit h =
    drain-IsTimed es (handle_event now e d) fit.1 (handle_event-IsTimed now e d fit.0 h)

-- From a display whose boot screen and alerts have deadlines, any rounds with any events, each
-- handled at least 2 s before the clock wraps, lead to such a display.
pub run_display-IsTimed :
    (rounds : List Tick) (d : Display) → AllFit rounds → IsTimed d → IsTimed (run_display rounds d)
unfolding display_round
run_display-IsTimed [] d fit h = h
run_display-IsTimed (r ∷ rs) d fit h =
    let drained = drain-IsTimed r.events d fit.0 h in
    let checked = check_expiry-IsTimed r.at_time r.wifi (drain r.events d) drained in
    let polled =
      poll-IsTimed r.at_time r.wifi r.ws (check_expiry r.at_time r.wifi (drain r.events d))
        checked in
    run_display-IsTimed rs (display_round r.events r.at_time r.wifi r.ws r.still d).1 fit.1 (
      render-IsTimed r.at_time
        (poll_connection r.at_time r.wifi r.ws (check_expiry r.at_time r.wifi (drain r.events d)))
        polled)

not_boot : (st : DmState) → is_alert st ≡ true → is_state st st_boot ≡ false
not_boot st_boot h = cc
not_boot st_connecting h = refl
not_boot st_idle h = refl
not_boot st_respawning h = refl
not_boot st_alert_hit h = refl
not_boot st_alert_killed h = refl
not_boot st_alert_kill h = refl
not_boot st_alert_msg h = refl
not_boot st_alert_ready h = refl
not_boot st_alert_disconnected h = refl
not_boot st_error h = refl
not_boot st_factory_reset h = refl

expired :
    (t : ℕ) (wifi : Bool) (d : Display)
    → d.state_until_ms ≢ 0
    → is_alert d.state ≡ true
    → d.state_until_ms ≤ t
    → check_expiry t wifi d ≡ (
        if is_state d.return_state st_error
        then switch_to scr_error (enter_state t st_error 0 (record d { state_until_ms = 0 }))
        else switch_to scr_idle (enter_state t st_idle 0 (record d { state_until_ms = 0 })))
unfolding check_expiry expire
expired t wifi d timed alerted over = ground (arith, timed, alerted, over, not_boot d.state alerted)

-- What is left of a round once the display is idle, or on the error screen, without an alert.
settle_idle :
    (t : ℕ) (wifi ws : Bool) (d : Display)
    → d.state ≡ st_idle
    → let after = render t (poll_connection t wifi ws d) in
      (after.alert ≡ d.alert)
      × (after.state_until_ms ≡ d.state_until_ms)
      × (after.state ≡ st_idle)
      × (after.screen ≡ d.screen)
unfolding poll_connection render
settle_idle t wifi ws d idle = (ground arith, ground arith, ground arith, ground arith)

settle_error :
    (t : ℕ) (wifi ws : Bool) (d : Display)
    → d.state ≡ st_error
    → d.screen ≡ scr_error
    → d.alert ≡ none
    → let after = render t (poll_connection t wifi ws d) in
      (after.alert ≡ none)
      × (after.state_until_ms ≡ d.state_until_ms)
      × (after.state ≡ st_error)
      × (after.screen ≡ scr_error)
unfolding poll_connection render switch_to
settle_error t wifi ws d failed shown quiet =
    (ground arith, ground arith, ground arith, ground arith)

-- A display whose alerts have deadlines, in an alert that only its deadline ends, is back on the
-- error screen if an error was interrupted, and else idle, with no alert and no deadline, after the
-- first round without events at or after the deadline.
pub alert_ends :
    (t : ℕ) (wifi ws still : Bool) (d : Display)
    → IsTimed d
    → is_alert d.state ≡ true
    → d.state_until_ms ≤ t
    → let after = (display_round [] t wifi ws still d).1 in
      (after.alert ≡ none)
      × (after.state_until_ms ≡ 0)
      × ((d.return_state ≡ st_error → (after.state ≡ st_error) × (after.screen ≡ scr_error))
          × (d.return_state ≢ st_error → (after.state ≡ st_idle) × (after.screen ≡ scr_idle)))
unfolding display_round enter_state switch_to
alert_ends t wifi ws still d h alerted over =
    let e = record d { state_until_ms = 0 } in
    let path =
      ap (λ c. render t (poll_connection t wifi ws c))
        (expired t wifi d (h.alert_ends alerted) alerted over) in
    elim (Bool-cases (is_state d.return_state st_error)) [
      | inl was_error ↦
          let rest =
            settle_error t wifi ws (switch_to scr_error (enter_state t st_error 0 e)) refl refl
              refl in
          ground (arith, path, was_error, rest)
      | inr other ↦
          let rest = settle_idle t wifi ws (switch_to scr_idle (enter_state t st_idle 0 e)) refl in
          ground (arith, path, other, rest)
    ]
