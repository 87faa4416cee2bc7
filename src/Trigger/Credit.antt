-- ===== src/Trigger/Credit.antt =====
-- Who is credited with a hit: esp32/weapon/src/tasks/espnow_task.c and
-- esp32/target/src/tasks/processing_task.cpp together.
use ray_z.GameState.Defs.{Vars}
use ray_z.GameState.Runtime.{record_hit, record_kill, next_seq_id, update_heartbeat}
use ray_z.Hit.{hit_message}
use ray_z.Prelude.{[], arith, u32, ℕ, ◌%◌, ◌+◌, ◌≡◌, ◌≢◌, ◌≤◌}
use ray_z.Protocol.{max_device_id}
use ray_z.Trigger.{is_own_hit, weapon_receive}
use ray_z.WsServer.Messages.{create_status_json, send_status}

-- The report of a hit under the identifiers of a device in range, received on any weapon, adds one
-- kill and one hit and keeps the configuration if the weapon is that device, and else does nothing.
pub weapon_receive-hit_message :
    (player_id device_id self_device_id message t u v : ℕ) (shooter victim : Vars)
    → device_id ≤ max_device_id
    → let heard =
        weapon_receive self_device_id
          (hit_message (player_id % 32) (device_id % 64) message t victim)
          u
          v
          shooter in
      (self_device_id ≡ device_id
        → (heard.1.state.kills ≡ u32 (shooter.state.kills + 1))
          × (heard.1.state.hits_landed ≡ u32 (shooter.state.hits_landed + 1))
          × (heard.1.config ≡ shooter.config))
      × (self_device_id ≢ device_id → heard ≡ ([], shooter))
unfolding weapon_receive is_own_hit hit_message record_kill record_hit send_status
    create_status_json next_seq_id update_heartbeat
weapon_receive-hit_message player_id device_id self message t u v shooter victim d_le = ground arith
