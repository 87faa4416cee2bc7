-- ===== src/WsServer/Dispatch/Phases.antt =====
-- No message from a browser breaks the phases of a game (esp32/shared/src/ws_server.cpp).
use ray_z.EspNow.Peers.{known}
use ray_z.GameState.Control.{
  extend_time, pause_game, resume_game, start_game, stop_game, update_target,
}
use ray_z.GameState.Control.Phase.{IsPhase}
use ray_z.GameState.Defs.{Vars}
use ray_z.GameState.Runtime.{
  next_seq_id, record_death, record_hit, record_kill, reset_runtime, reset_stats, start_respawn,
  update_heartbeat,
}
use ray_z.NvsStore.{Nvs}
use ray_z.Prelude.{Bytes, Option-cases, arith, codes, inl, inr, ℕ, ◌≡◌}
use ray_z.WsServer.Commands.{
  CJson, ClientOp, GameCommand, Times, broadcast_state, cmd_extend_time, cmd_pause, cmd_reset,
  cmd_start, cmd_stop, cmd_unpause, cmd_update_target, config_update, game_cmd, game_command,
  get_status, handle_game_command, handle_hit_forward, heartbeat, hit_forward, kill_confirmed,
  number_member, remote_sound, run_command,
}
use ray_z.WsServer.Dispatch.{message_op, process_message, run_op}
use ray_z.WsServer.Dispatch.Updates.{IsPhase-phase, handle_config_update-phase, phase}
use ray_z.WsServer.Messages.{create_status_json, send_status}

module _ (json : CJson) where
  run_command-IsPhase :
      (t : ℕ) (root : json.Item) (c : GameCommand) (g : Vars)
      → IsPhase g
      → IsPhase (run_command json t root c g)
  unfolding run_command stop_game start_game reset_runtime reset_stats pause_game resume_game
      extend_time update_target
  run_command-IsPhase t root cmd_stop g h = ground arith
  run_command-IsPhase t root cmd_start g h = ground arith
  run_command-IsPhase t root cmd_reset g h = ground arith
  run_command-IsPhase t root cmd_pause g h = ground arith
  run_command-IsPhase t root cmd_unpause g h = ground arith
  run_command-IsPhase t root cmd_extend_time g h =
      elim (Option-cases (number_member json root "extend_minutes")) [
        | inl missing ↦ ground arith
        | inr (n, found) ↦ ground arith
      ]
  run_command-IsPhase t root cmd_update_target g h =
      elim (Option-cases (number_member json root "new_target")) [
        | inl missing ↦ ground arith
        | inr (n, found) ↦ ground arith
      ]

  handle_game_command-IsPhase :
      (ts : Times) (root : json.Item) (g : Vars)
      → IsPhase g
      → IsPhase (handle_game_command json ts root g).1
  unfolding handle_game_command broadcast_state send_status create_status_json next_seq_id
      update_heartbeat
  handle_game_command-IsPhase ts root g h =
      elim (Option-cases (json.get_object_item root (codes "command"))) [
        | inl missing ↦ ground (arith, missing, h)
        | inr (item, found) ↦ elim (Option-cases (game_command (json.valueint item))) [
          | inl unknown ↦ ground (arith, found, unknown, h)
          | inr (c, known) ↦ ground (arith, found, known, run_command-IsPhase ts.at_op root c g h)
        ]
      ]

  handle_hit_forward-phase :
      (ts : Times) (root : json.Item) (g : Vars)
      → phase (handle_hit_forward json ts root g).1 ≡ phase g
  unfolding handle_hit_forward broadcast_state send_status create_status_json next_seq_id
      update_heartbeat record_hit start_respawn record_death
  handle_hit_forward-phase ts root g = elim (Option-cases (number_member json root "shooter_id")) [
    | inl missing ↦ ground (arith, missing)
    | inr (shooter, found) ↦ ground (arith, found)
  ]

  module _ (nvs : Nvs) where
    run_op-IsPhase :
        (ts : Times) (fd : ℕ) (root : json.Item) (op : ClientOp) (f : nvs.Flash) (g : Vars)
        → IsPhase g
        → IsPhase (run_op json nvs ts fd root op f g).2
    unfolding run_op send_status create_status_json next_seq_id update_heartbeat broadcast_state
        record_kill
    run_op-IsPhase ts fd root get_status f g h = ground (arith, h)
    run_op-IsPhase ts fd root heartbeat f g h = ground (arith, h)
    run_op-IsPhase ts fd root config_update f g h =
        IsPhase-phase g _ h (handle_config_update-phase json nvs ts root f g)
    run_op-IsPhase ts fd root game_cmd f g h = handle_game_command-IsPhase ts root g h
    run_op-IsPhase ts fd root hit_forward f g h =
        IsPhase-phase g _ h (handle_hit_forward-phase ts root g)
    run_op-IsPhase ts fd root kill_confirmed f g h = ground (arith, h)
    run_op-IsPhase ts fd root remote_sound f g h = h

    -- Whatever a browser sends, valid JSON or not, and whatever its members are, a game in a
    -- consistent phase stays in one.
    pub process_message-IsPhase :
        (ts : Times) (fd : ℕ) (payload : Bytes) (f : nvs.Flash) (g : Vars)
        → IsPhase g
        → IsPhase (process_message json nvs ts fd payload f g).2
    unfolding process_message
    process_message-IsPhase ts fd payload f g h = elim (Option-cases (json.parse payload)) [
      | inl broken ↦ ground (arith, broken, h)
      | inr (root, parsed) ↦ elim (Option-cases (message_op json root)) [
        | inl unknown ↦ ground (arith, parsed, unknown, h)
        | inr (op, known) ↦ ground (arith, parsed, known, run_op-IsPhase ts fd root op f g h)
      ]
    ]
