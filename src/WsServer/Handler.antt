-- ===== src/WsServer/Handler.antt =====
-- The request handler `ws_handler` of esp32/shared/src/ws_server.cpp.
pub mod Requests
use ray_z.GameState.Defs.{Vars}
use ray_z.NvsStore.{Nvs}
use ray_z.Prelude.{
  Bool, Bytes, List, Option, [], false, if◌then◌else◌, leb, none, some, true, ℕ, ◌==◌, ◌||◌,
}
use ray_z.WsServer.Clients.{WsClient, handshake, receive_frame, remove_client}
use ray_z.WsServer.Commands.{CJson, Reply, Times}
use ray_z.WsServer.Dispatch.{process_message}

abbrev pub ws_max_frame_size : ℕ
ws_max_frame_size = 1024

-- What the HTTP library passes to the handler: the handshake, a frame whose header cannot be read,
-- a close frame, or another frame with its length and its text up to the first NUL, `none` if its
-- payload cannot be read.
pub data Request : Type 0 where
  get_request bad_frame close_frame : Request
  data_frame : ℕ → Option Bytes → Request

-- What a request may change.
pub record Server (Flash : Type 0) : Type 0 where
  pub clients : List WsClient
  pub store : Flash
  pub game : Vars

-- The readings of the timer for the table, and those of the message.
pub record Visit : Type 0 where
  pub at_tidy : ℕ
  pub at_add : ℕ
  pub at_touch : ℕ
  pub times : Times

module _ (json : CJson) (nvs : Nvs) where
  open nvs use {Flash}

  -- `now` gives the readings of the timer in milliseconds for the table, and `healthy` the answers
  -- of `getsockopt`. The result tells whether `ESP_OK` is returned; an error makes the HTTP library
  -- close the connection. The callbacks that the program may register change none of this.
  unfoldable pub ws_handler :
      Visit → (ℕ → Bool) → ℕ → Request → Server Flash → Bool × List Reply × Server Flash
  ws_handler v healthy fd get_request s =
      (true, [], record s { clients = handshake v.at_tidy v.at_add healthy fd s.clients })
  ws_handler v healthy fd bad_frame s =
      (false, [], record s { clients = (remove_client fd s.clients).1 })
  ws_handler v healthy fd close_frame s =
      (false, [], record s { clients = (remove_client fd s.clients).1 })
  ws_handler v healthy fd (data_frame len none) s = (len == 0 || leb ws_max_frame_size len, [], s)
  ws_handler v healthy fd (data_frame len (some msg)) s =
      let clients = receive_frame v.at_add v.at_touch fd s.clients in
      let (replies, store, game) = process_message json nvs v.times fd msg s.store s.game in
      if len == 0 || leb ws_max_frame_size len
      then (true, [], s)
      else (true, replies, record { clients = clients; store = store; game = game })
