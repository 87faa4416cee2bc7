-- ===== src/WsServer/Dispatch.antt =====
-- `handle_config_update` and `process_message` of esp32/shared/src/ws_server.cpp.
pub mod Updates
pub mod Phases
pub mod Effects
use ray_z.GameState.Config.{load_default_game_config}
use ray_z.GameState.Defs.{Vars}
use ray_z.GameState.Ids.{save_ids}
use ray_z.GameState.Roster.{clear_player_names, set_player_name}
use ray_z.GameState.Runtime.{record_kill, update_heartbeat}
use ray_z.NvsStore.{Item, Nvs}
use ray_z.Prelude.{
  Bool, Bytes, List, Option, [], codes, false, if◌then◌else◌, length, ltb, none, some, str_eq, ℕ,
  ◌++◌, ◌==◌, ◌∷◌,
}
use ray_z.Prelude.Int.{negsuc, pos, to_word, ℤ}
use ray_z.WsServer.Commands.{
  CJson, ClientOp, Reply, Times, answer, broadcast_state, client_op, config_update, game_cmd,
  get_status, handle_game_command, handle_hit_forward, heartbeat, hit_forward, kill_confirmed,
  load_peers, remote_sound, device_updates, game_updates, run_updates,
}
use ray_z.WsServer.Messages.{heartbeat_ack, send_status}

module _ (json : CJson) where
  open json use {
    Item, parse, get_object_item, is_true, is_string, is_array, valueint, valuestring, elements,
  }

  -- `op`, or `type` as a text if `op` is missing or 0.
  abbrev type_op : Bytes → Option ClientOp
  type_op s =
      if str_eq s (codes "get_status")
      then some get_status
      else if str_eq s (codes "heartbeat")
      then some heartbeat
      else if str_eq s (codes "config_update")
      then some config_update
      else none

  unfoldable pub fallback_op : Item → Option ClientOp
  fallback_op root = elim (get_object_item root (codes "type")) [
    | none ↦ none
    | some item ↦ elim (valuestring item) [ none ↦ none | some s ↦ type_op s ]
  ]

  abbrev is_zero : ℤ → Bool
  is_zero (pos n) = n == 0
  is_zero (negsuc n) = false

  unfoldable pub message_op : Item → Option ClientOp
  message_op root = elim (get_object_item root (codes "op")) [
    | none ↦ fallback_op root
    | some item ↦ if is_zero (valueint item) then fallback_op root else client_op (valueint item)
  ]

  -- One entry of the array of players.
  unfoldable pub load_player : Vars → Option Item → Option Item → Vars
  load_player g none pname = g
  load_player g (some pid) none = g
  load_player g (some pid) (some pname) =
      if is_string pname
      then set_player_name (to_word 8 (valueint pid)) (valuestring pname) g
      else g

  -- The loop over the array.
  unfoldable pub load_players : List Item → Vars → Vars
  load_players [] g = g
  load_players (p ∷ ps) g =
      load_players ps
        (load_player g (get_object_item p (codes "id")) (get_object_item p (codes "name")))

  unfoldable pub update_players : Item → Vars → Vars
  update_players root g = elim (get_object_item root (codes "players")) [
    | none ↦ g
    | some players ↦
        if is_array players then load_players (elements players) (clear_player_names g) else g
  ]

  unfoldable pub reset_if_asked : Item → Vars → Vars
  reset_if_asked root g = elim (get_object_item root (codes "reset_to_defaults")) [
    | none ↦ g
    | some item ↦ if is_true item then load_default_game_config g else g
  ]

  -- The list of radio peers, if there is one that is not empty.
  unfoldable pub asked_peers : Item → List Reply
  asked_peers root = elim (get_object_item root (codes "espnow_peers")) [
    | none ↦ []
    | some item ↦
        if is_string item
        then elim (valuestring item) [
          | none ↦ []
          | some s ↦ if ltb 0 (length s) then load_peers s ∷ [] else []
        ]
        else []
  ]

  module _ (nvs : Nvs) where
    open nvs use {Flash}

    unfoldable pub handle_config_update : Times → Item → Flash → Vars → List Reply × Flash × Vars
    handle_config_update ts root f g =
        let assigned =
          run_updates (game_updates json root)
            (run_updates (device_updates json root) (reset_if_asked root g)) in
        let updated = update_players root assigned in
        let (ok, f', saved) = save_ids nvs f updated in
        let (replies, g') = broadcast_state ts saved in (asked_peers root ++ replies, f', g')

    unfoldable pub run_op : Times → ℕ → Item → ClientOp → Flash → Vars → List Reply × Flash × Vars
    run_op ts fd root get_status f g =
        let (msg, g') = send_status ts.at_status ts.at_beat g in (answer fd msg ∷ [], f, g')
    run_op ts fd root heartbeat f g =
        (answer fd heartbeat_ack ∷ [], f, update_heartbeat ts.at_beat g)
    run_op ts fd root config_update f g = handle_config_update ts root f g
    run_op ts fd root game_cmd f g =
        let (replies, g') = handle_game_command json ts root g in (replies, f, g')
    run_op ts fd root hit_forward f g =
        let (replies, g') = handle_hit_forward json ts root g in (replies, f, g')
    run_op ts fd root kill_confirmed f g =
        let (replies, g') = broadcast_state ts (record_kill g) in (replies, f, g')
    run_op ts fd root remote_sound f g = ([], f, g)

    -- A message from the client `fd`. The handler of a remote sound only logs.
    unfoldable pub process_message : Times → ℕ → Bytes → Flash → Vars → List Reply × Flash × Vars
    process_message ts fd payload f g = elim (parse payload) [
      | none ↦ ([], f, g)
      | some root ↦ elim (message_op root) [
        | none ↦ ([], f, g)
        | some op ↦ run_op ts fd root op f g
      ]
    ]
