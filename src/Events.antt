-- ===== src/Events.antt =====
-- The messages between the devices and to the display: `PlayerMessage` of
-- esp32/shared/include/espnow_comm.h and `dm_event_t` of esp32/shared/include/display_manager.h.
use ray_z.Prelude.{Bytes, ℕ}
use ray_z.WsServer.Messages.{Json}

pub data EspnowMsgType : Type 0 where
  msg_shot msg_hit_event msg_heartbeat : EspnowMsgType

pub record PlayerMessage : Type 0 where
  pub type : EspnowMsgType
  pub version : ℕ  -- uint8
  pub player_id : ℕ  -- uint8
  pub device_id : ℕ  -- uint8
  pub team_id : ℕ  -- uint8
  pub reserved : ℕ  -- uint8
  pub color_rgb : ℕ  -- uint32
  pub timestamp_ms : ℕ  -- uint32
  pub data_word : ℕ  -- uint32, the field `data`

-- The tag of a `dm_event_t` with the fields of its variant.
pub data DmEvent : Type 0 where
  evt_none evt_hit evt_error_clear evt_respawn_complete : DmEvent
  evt_wifi_connected evt_wifi_disconnected : DmEvent
  evt_msg : Bytes → DmEvent
  evt_error_set evt_respawn_start evt_factory_reset : ℕ → DmEvent
  evt_killed evt_kill evt_health_update evt_score_update : ℕ → ℕ → DmEvent

-- What a task does to the outside, in order.
pub data Action : Type 0 where
  -- a pulse of the vibration motor
  vibrate : Action
  -- `display_manager_post`
  post : DmEvent → Action
  -- `espnow_comm_broadcast`
  radio : PlayerMessage → Action
  -- `ws_server_broadcast` of a message to the browsers
  web : Json → Action
  -- `xQueueSend` to `laserMessageQueue`
  laser : ℕ → Action
