-- ===== src/WsServer/Handler/Requests.antt =====
-- The server under any sequence of requests (esp32/shared/src/ws_server.cpp).
use ray_z.GameState.Control.Phase.{IsPhase}
use ray_z.NvsStore.{Nvs}
use ray_z.Prelude.{Bool, List, [], none, some, ℕ, ◌∷◌, Bool-cases, inl, inr, leb, ◌==◌, ◌||◌}
use ray_z.WsServer.Clients.{remove_client}
use ray_z.WsServer.Clients.Table.{IsTable, Event, happen-IsTable}
use ray_z.WsServer.Commands.{CJson}
use ray_z.WsServer.Dispatch.Phases.{process_message-IsPhase}
use ray_z.WsServer.Handler.{
  Request, Server, Visit, bad_frame, close_frame, data_frame, get_request, ws_handler,
  ws_max_frame_size,
}

-- A request with its socket, the readings of the timer and the sockets that are alive.
pub record Exchange : Type 0 where
  pub visit : Visit
  pub healthy : ℕ → Bool
  pub socket : ℕ
  pub request : Request

module _ (json : CJson) (nvs : Nvs) where
  abbrev pub serve : Exchange → Server nvs.Flash → Server nvs.Flash
  serve c s = (ws_handler json nvs c.visit c.healthy c.socket c.request s).2

  abbrev pub serve_all : List Exchange → Server nvs.Flash → Server nvs.Flash
  serve_all [] s = s
  serve_all (c ∷ more) s = serve_all more (serve c s)

  -- The table of clients and the phase of the game are consistent.
  pub record IsServer (s : Server nvs.Flash) : Type 0 where
    pub is_table : IsTable s.clients
    pub is_phase : IsPhase s.game

  serve-IsServer : (c : Exchange) (s : Server nvs.Flash) → IsServer s → IsServer (serve c s)
  unfolding ws_handler
  serve-IsServer c s h = go c.request
    where
      fd : ℕ
      fd = c.socket

      gone : IsTable (remove_client fd s.clients).1
      gone = happen-IsTable (Event.leave fd) s.clients h.is_table

      go : (r : Request) → IsServer (ws_handler json nvs c.visit c.healthy fd r s).2
      go get_request = record {
        is_table =
            happen-IsTable (Event.shake c.visit.at_tidy c.visit.at_add c.healthy fd) s.clients
              h.is_table;
        is_phase = h.is_phase;
      }
      go bad_frame = record { is_table = gone; is_phase = h.is_phase }
      go close_frame = record { is_table = gone; is_phase = h.is_phase }
      go (data_frame len none) = h
      go (data_frame len (some msg)) = elim (Bool-cases (len == 0 || leb ws_max_frame_size len)) [
        | inl skipped ↦ rw skipped h
        | inr read ↦ rw read (record {
          is_table =
              happen-IsTable (Event.frame c.visit.at_add c.visit.at_touch fd) s.clients h.is_table;
          is_phase =
              process_message-IsPhase json nvs c.visit.times fd msg s.store s.game h.is_phase;
        })
      ]

  -- From a table of clients with 8 entries and at most one active one for a socket, and a game that
  -- is not over and running or paused and not running, any sequence of requests of any browsers,
  -- with any payloads, leads to such a table and game again.
  pub serve_all-IsServer :
      (exchanges : List Exchange) (s : Server nvs.Flash)
      → IsServer s
      → IsServer (serve_all exchanges s)
  serve_all-IsServer [] s h = h
  serve_all-IsServer (c ∷ more) s h = serve_all-IsServer more (serve c s) (serve-IsServer c s h)
