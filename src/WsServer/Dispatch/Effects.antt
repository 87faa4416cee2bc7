-- ===== src/WsServer/Dispatch/Effects.antt =====
-- What particular messages of a browser do (esp32/shared/src/ws_server.cpp).
use ray_z.GameState.Control.{is_game_over, is_paused, is_running, start_game, is_last_man}
use ray_z.GameState.Defs.{Vars}
use ray_z.GameState.Ids.{save_ids}
use ray_z.GameState.Runtime.{
  next_seq_id, record_death, record_hit, reset_runtime, start_respawn, update_heartbeat,
}
use ray_z.NvsStore.{Nvs}
use ray_z.Prelude.{
  arith, codes, false, some, true, u32, ◌+◌, ◌<◌, ◌≡◌, ◌≤◌, bit_and_low5, bit_and_low6,
  if◌then◌else◌,
}
use ray_z.Prelude.Int.{pos, ℤ}
use ray_z.Protocol.{max_device_id, max_player_id}
use ray_z.WsServer.Commands.{
  CJson, Times, broadcast_state, handle_game_command, handle_hit_forward, number_member,
  run_command, device_updates, game_updates, run_updates,
}
use ray_z.WsServer.Dispatch.{handle_config_update, reset_if_asked, update_players}
use ray_z.WsServer.Messages.{create_status_json, send_status}

module _ (json : CJson) where
  -- A hit that the server forwards is counted as a hit landed by this device. It costs no heart: a
  -- player who has hearts goes on, and only one who has none is put down, with a death counted.
  pub handle_hit_forward_lem :
      (ts : Times) (root : json.Item) (shooter : ℤ) (g : Vars)
      → number_member json root "shooter_id" ≡ some shooter
      → let after = (handle_hit_forward json ts root g).1.state in
        (after.hits_landed ≡ u32 (g.state.hits_landed + 1))
        × (after.hearts_remaining ≡ g.state.hearts_remaining)
        × (0 < g.state.hearts_remaining
            → (after.respawning ≡ g.state.respawning) × (after.deaths ≡ g.state.deaths))
        × (g.state.hearts_remaining ≡ 0
            → (after.respawning ≡ true) × (after.deaths ≡ u32 (g.state.deaths + 1)))
  unfolding handle_hit_forward broadcast_state send_status create_status_json next_seq_id
      update_heartbeat record_hit start_respawn record_death
  handle_hit_forward_lem ts root shooter g valid =
      (ground arith, ground arith, λ some_left. ground arith, λ none_left. ground arith)

  -- A start command begins a fresh game from any state: it runs, unpaused and not over, with all
  -- counters at zero, and with the spawn hearts in last-man-standing mode and else all hearts. The numbering of the messages starts again, so that the
  -- broadcast after it has the number 1.
  pub handle_game_command-start :
      (ts : Times) (root item : json.Item) (g : Vars)
      → json.get_object_item root (codes "command") ≡ some item
      → json.valueint item ≡ pos 1
      → let after = (handle_game_command json ts root g).1 in
        (is_running after ≡ true)
        × (is_game_over after ≡ false)
        × (is_paused after ≡ false)
        × (after.state.kills ≡ 0)
        × (after.state.deaths ≡ 0)
        × (after.state.hearts_remaining
            ≡ (if is_last_man g.game_cfg then g.game_cfg.spawn_hearts else g.game_cfg.max_hearts))
        × (after.state.broadcast_seq_id ≡ 1)
        × (after.game_cfg ≡ g.game_cfg)
  unfolding handle_game_command broadcast_state send_status create_status_json next_seq_id
      update_heartbeat run_command start_game reset_runtime is_running is_game_over is_paused
  handle_game_command-start ts root item g found is_start = (
    ground arith,
    ground arith,
    ground arith,
    ground arith,
    ground arith,
    ground arith,
    ground arith,
    ground arith,
  )

  module _ (nvs : Nvs) where
    -- After any configuration message the identifiers fit a laser message.
    pub handle_config_update-ids :
        (ts : Times) (root : json.Item) (f : nvs.Flash) (g : Vars)
        → let after = (handle_config_update json nvs ts root f g).2 in
          (after.config.device_id ≤ max_device_id) × (after.config.player_id ≤ max_player_id)
    unfolding handle_config_update save_ids broadcast_state send_status create_status_json
        next_seq_id update_heartbeat
    handle_config_update-ids ts root f g =
        let updated = update_players json root (
          run_updates (game_updates json root)
            (run_updates (device_updates json root) (reset_if_asked json root g))) in
        (
          omega (arith, bit_and_low6 updated.config.device_id),
          omega (arith, bit_and_low5 updated.config.player_id),
        )
