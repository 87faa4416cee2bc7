-- ===== src/Display/Alerts.antt =====
-- What the display shows after particular events (esp32/shared/src/display_manager.cpp).
use ray_z.Display.{
  Display, check_expiry, dev_target, display_round, drain, enter_state, handle_event, interrupt,
  poll_connection, render, scr_respawn, show_alert, st_idle, st_respawning, switch_to,
}
use ray_z.Events.{evt_factory_reset, evt_killed, evt_respawn_start}
use ray_z.Prelude.{Bool, [], none, ℕ, ◌<◌, ◌∷◌, ◌≡◌, arith}

-- A target that handles the two events of a hit, in the order in which they are posted, is on the
-- respawn screen with the shooter's identifiers, and the alert of the kill is hidden again.
pub killed_then_respawn :
    (t u player_id device_id ms : ℕ) (d : Display)
    → d.dev ≡ dev_target
    → let shown = drain ((t, evt_killed player_id device_id) ∷ (u, evt_respawn_start ms) ∷ []) d in
      (shown.state ≡ st_respawning)
      × (shown.screen ≡ scr_respawn)
      × (shown.killer_pid ≡ player_id)
      × (shown.killer_did ≡ device_id)
      × (shown.alert ≡ none)
unfolding handle_event enter_state switch_to show_alert interrupt
killed_then_respawn t u player_id device_id ms d on_target =
    (ground arith, ground arith, ground arith, ground arith, ground arith)

-- When the button of a factory reset that was shown over the idle state is released early, the
-- display is idle again, but the screen of the reset stays, also after a round without events,
-- whatever is connected.
pub reset_release_keeps_screen :
    (t u v pct : ℕ) (wifi ws still : Bool) (d : Display)
    → d.state ≡ st_idle
    → 0 < pct
    → let released = drain ((t, evt_factory_reset pct) ∷ (u, evt_factory_reset 0) ∷ []) d in
      (released.state ≡ st_idle)
      × (released.screen ≡ scr_respawn)
      × ((display_round [] v wifi ws still released).1.screen ≡ scr_respawn)
      × ((display_round [] v wifi ws still released).1.state ≡ st_idle)
unfolding handle_event enter_state switch_to display_round check_expiry poll_connection render
reset_release_keeps_screen t u v pct wifi ws still d idle pressed =
    (ground arith, ground arith, ground arith, ground arith)
