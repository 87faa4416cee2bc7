-- ===== src/WsServer/Task.antt =====
-- The rounds of the web tasks, esp32/target/src/tasks/ws_task.cpp and
-- esp32/weapon/src/tasks/ws_task.cpp.
pub mod Respawns
use ray_z.GameState.Defs.{Vars}
use ray_z.GameState.Runtime.{check_respawn, heartbeat_due}
use ray_z.Prelude.{Bool, List, [], if◌then◌else◌, ℕ, ◌&&◌, ◌++◌, ◌∷◌}
use ray_z.WsServer.Clients.{WsClient, cleanup_stale, is_connected}
use ray_z.WsServer.Messages.{Json, broadcast_respawn, send_status}

-- The readings of the timer in one round, in order.
pub record RoundTimes : Type 0 where
  pub at_due : ℕ
  pub at_status : ℕ
  pub at_beat : ℕ
  pub at_check : ℕ
  pub at_send : ℕ

-- The status that is sent when a browser is connected and the last heartbeat is old.
unfoldable pub send_if_due : Bool → RoundTimes → Vars → List Json × Vars
send_if_due connected ts g =
    let (msg, g') = send_status ts.at_status ts.at_beat g in
    if connected && heartbeat_due ts.at_due g then (msg ∷ [], g') else ([], g)

-- The end of a respawn, if this round is the first to notice it, is told to the browsers.
unfoldable pub tell_respawn : RoundTimes → Vars → List Json × Vars
tell_respawn ts g =
    let (ended, back) = check_respawn ts.at_check g in
    let (msg, g') = broadcast_respawn ts.at_send back in
    if ended then (msg ∷ [], g') else ([], back)

-- A round on the target; the weapon's cleans the table of clients before it.
unfoldable pub target_ws_round : Bool → RoundTimes → Vars → List Json × Vars
target_ws_round connected ts g =
    let (status, g1) = send_if_due connected ts g in
    let (respawn, g2) = tell_respawn ts g1 in (status ++ respawn, g2)

-- `t` is the clock of the clean-up, and `healthy` the answers of `getsockopt`.
unfoldable pub weapon_ws_round :
    ℕ → (ℕ → Bool) → RoundTimes → List WsClient → Vars → List Json × List WsClient × Vars
weapon_ws_round t healthy ts cs g =
    let cleaned = cleanup_stale t healthy cs in
    let (sent, g') = target_ws_round (is_connected cleaned) ts g in (sent, cleaned, g')
