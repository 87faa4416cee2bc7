-- ===== src/Display.antt =====
-- The state machine of the display, esp32/shared/src/display_manager.cpp. What a widget looks like
-- is left out: kept is which group of widgets is shown, and which alert over it. The answers of the
-- callbacks in `s_src` are arguments.
pub mod Timed
pub mod Alerts
use ray_z.Events.{
  DmEvent, evt_error_clear, evt_error_set, evt_factory_reset, evt_health_update, evt_hit, evt_kill,
  evt_killed, evt_msg, evt_none, evt_respawn_complete, evt_respawn_start, evt_score_update,
  evt_wifi_connected, evt_wifi_disconnected,
}
use ray_z.Prelude.{
  Bool, Bytes, List, Option, [], false, if◌then◌else◌, leb, none, not, some, sub32, true, u32, ℕ,
  ◌&&◌, ◌+◌, ◌==◌, ◌||◌, ◌∷◌,
}

pub data DmState : Type 0 where
  st_boot st_connecting st_idle st_respawning st_alert_hit st_alert_killed st_alert_kill : DmState
  st_alert_msg st_alert_ready st_alert_disconnected st_error st_factory_reset : DmState

pub data DevType : Type 0 where
  dev_target dev_weapon : DevType

pub data Screen : Type 0 where
  scr_boot scr_connecting scr_idle scr_respawn scr_error : Screen

pub data Alert : Type 0 where
  say_hit say_ready say_no_wifi : Alert
  say_killed say_kill : ℕ → ℕ → Alert
  say_text : Bytes → Alert

pub record Display : Type 0 where
  pub dev : DevType
  pub state : DmState
  pub return_state : DmState
  pub state_until_ms : ℕ  -- uint32
  pub last_slow_ms : ℕ  -- uint32
  pub last_fast_ms : ℕ  -- uint32
  pub error_code : ℕ  -- uint32
  pub killer_pid : ℕ  -- uint8
  pub killer_did : ℕ  -- uint8
  pub reset_pct : ℕ  -- uint8
  pub blink : Bool
  pub screen : Screen
  pub alert : Option Alert

unfoldable pub enter_state : ℕ → DmState → ℕ → Display → Display
enter_state now st dur_ms d = record d {
  state = st;
  state_until_ms = if dur_ms == 0 then 0 else u32 (now + dur_ms);
}

-- `hide_all` and the showing of one group; the alert is hidden with the rest.
unfoldable pub switch_to : Screen → Display → Display
switch_to scr d = record d { screen = scr; alert = none }

unfoldable pub show_alert : Alert → Display → Display
show_alert a d = record d { alert = some a }

-- `display_manager_init`, from the zeros of static storage; `has_ammo` is whether there is a source
-- for the ammunition.
unfoldable pub init_display : ℕ → Bool → Display
init_display now has_ammo = enter_state now st_boot 800 (
    switch_to scr_boot (record {
      dev = if has_ammo then dev_weapon else dev_target;
      state = st_boot;
      return_state = st_boot;
      state_until_ms = 0;
      last_slow_ms = 0;
      last_fast_ms = 0;
      error_code = 0;
      killer_pid = 0;
      killer_did = 0;
      reset_pct = 0;
      blink = false;
      screen = scr_boot;
      alert = none;
    }))

-- An alert that interrupts the present state.
unfoldable pub interrupt : ℕ → DmState → ℕ → Alert → Display → Display
interrupt now st dur_ms a d =
    show_alert a (enter_state now st dur_ms (record d { return_state = d.state }))

abbrev pub is_state : DmState → DmState → Bool
is_state st_boot st_boot = true
is_state st_connecting st_connecting = true
is_state st_idle st_idle = true
is_state st_respawning st_respawning = true
is_state st_alert_disconnected st_alert_disconnected = true
is_state st_error st_error = true
is_state st_factory_reset st_factory_reset = true
is_state _ _ = false

abbrev pub is_target : DevType → Bool
is_target dev_target = true
is_target dev_weapon = false

-- `now` is the clock in milliseconds.
unfoldable pub handle_event : ℕ → DmEvent → Display → Display
handle_event now evt_none d = d
handle_event now (evt_error_set code) d =
    switch_to scr_error (enter_state now st_error 0 (record d { error_code = code }))
handle_event now evt_error_clear d =
    switch_to scr_idle (enter_state now st_idle 0 (record d { error_code = 0 }))
handle_event now evt_hit d = interrupt now st_alert_hit 800 say_hit d
handle_event now (evt_killed pid did) d =
    interrupt now st_alert_killed 2000 (say_killed pid did)
      (record d { killer_pid = pid; killer_did = did })
handle_event now (evt_kill pid did) d = interrupt now st_alert_kill 1500 (say_kill pid did) d
handle_event now (evt_respawn_start remaining) d =
    if is_target d.dev then switch_to scr_respawn (enter_state now st_respawning 0 d) else d
handle_event now evt_respawn_complete d =
    show_alert say_ready (
      switch_to scr_idle (enter_state now st_alert_ready 500 (record d { return_state = st_idle })))
handle_event now evt_wifi_connected d =
    if is_state d.state st_connecting then switch_to scr_idle (enter_state now st_idle 0 d) else d
handle_event now evt_wifi_disconnected d = interrupt now st_alert_disconnected 0 say_no_wifi d
handle_event now (evt_msg line) d = interrupt now st_alert_msg 800 (say_text line) d
handle_event now (evt_factory_reset pct) d =
    let e = record d { reset_pct = pct } in
    if (pct == 0) && is_state d.state st_factory_reset
    then enter_state now st_idle 0 e
    else if is_state d.state st_factory_reset
    then e
    else switch_to scr_respawn (enter_state now st_factory_reset 0 e)
handle_event now (evt_health_update hearts max_hearts) d = d
handle_event now (evt_score_update points deaths) d = d

-- `s_state >= DM_ST_ALERT_HIT && s_state <= DM_ST_ALERT_READY`
abbrev pub is_alert : DmState → Bool
is_alert st_alert_hit = true
is_alert st_alert_killed = true
is_alert st_alert_kill = true
is_alert st_alert_msg = true
is_alert st_alert_ready = true
is_alert _ = false

-- The end of a timed state; `wifi` is the answer of `wifi_connected`.
unfoldable pub expire : ℕ → Bool → Display → Display
expire now wifi d =
    let e = record d { state_until_ms = 0 } in
    if is_state d.state st_boot
    then if wifi
      then switch_to scr_idle (enter_state now st_idle 0 e)
      else switch_to scr_connecting (enter_state now st_connecting 0 e)
    else if is_alert d.state
    then if is_state d.return_state st_error
      then switch_to scr_error (enter_state now st_error 0 e)
      else switch_to scr_idle (enter_state now st_idle 0 e)
    else e

unfoldable pub check_expiry : ℕ → Bool → Display → Display
check_expiry t wifi d =
    if not (d.state_until_ms == 0) && leb d.state_until_ms t then expire t wifi d else d

-- The transitions that are polled for a connection.
unfoldable pub poll_connection : ℕ → Bool → Bool → Display → Display
poll_connection t wifi ws d =
    let idle = switch_to scr_idle (enter_state t st_idle 0 d) in
    if is_state d.state st_connecting && (wifi || ws)
    then idle
    else if is_state d.state st_alert_disconnected && wifi
    then idle
    else d

-- The event that a round posts to its own queue when the respawn is over.
unfoldable pub poll_respawn : Bool → Display → List DmEvent
poll_respawn still d =
    if is_state d.state st_respawning && is_target d.dev && not still
    then evt_respawn_complete ∷ []
    else []

-- The periodic drawing: the times of the last one, and the blinking of two alerts.
unfoldable pub render : ℕ → Display → Display
render t d =
    let slow = leb 1000 (sub32 t d.last_slow_ms) in
    let fast = leb 100 (sub32 t d.last_fast_ms) in
    let drawn = record d { last_fast_ms = t } in
    let blinked = record drawn { blink = not d.blink } in
    let after : Display = elim d.state [
      | st_idle ↦ if fast then drawn else d
      | st_respawning ↦ if fast then drawn else d
      | st_connecting ↦ if fast then drawn else d
      | st_alert_hit ↦
          if fast then record blinked { alert = if not d.blink then some say_hit else none } else d
      | st_alert_disconnected ↦
          if fast
          then record blinked { alert = if not d.blink then some say_no_wifi else none }
          else d
      | st_error ↦ if slow then switch_to scr_error d else d
      | st_boot ↦ d
      | st_alert_killed ↦ d
      | st_alert_kill ↦ d
      | st_alert_msg ↦ d
      | st_alert_ready ↦ d
      | st_factory_reset ↦ d
    ] in
    if slow then record after { last_slow_ms = t } else after

-- The events that are in the queue, each with the clock when it is handled.
abbrev pub drain : List (ℕ × DmEvent) → Display → Display
drain [] d = d
drain ((now, e) ∷ es) d = drain es (handle_event now e d)

-- A round of `display_manager_task`: the events, the clock after them, the answers of the
-- callbacks. The result is what it posts, and the display.
unfoldable pub display_round :
    List (ℕ × DmEvent) → ℕ → Bool → Bool → Bool → Display → List DmEvent × Display
display_round events t wifi ws still d =
    let checked = check_expiry t wifi (drain events d) in
    (poll_respawn still checked, render t (poll_connection t wifi ws checked))
