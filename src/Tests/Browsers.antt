-- ===== src/Tests/Browsers.antt =====
-- The web server with two browsers and a few messages.
use ray_z.GameState.Defs.{Vars, zero_state}
use ray_z.Hit.{game_round}
use ray_z.Prelude.{
  arith, Bytes, List, Option, [], codes, false, if◌then◌else◌, none, refl, some, str_eq, true, ◌∷◌,
  ◌≡◌, ◌≢◌, replicate,
}
use ray_z.Prelude.Int.{pos, ℤ}
use ray_z.Tests.Data.{alice}
use ray_z.Tests.Flash.{flash}
use ray_z.WsServer.Clients.{
  find_client_by_fd, init_clients, free_client, handshake, receive_frame, remove_client,
}
use ray_z.WsServer.Clients.Table.{Event, IsTable, happen_all, happen_all-IsTable}
use ray_z.WsServer.Commands.{CJson, Times}
use ray_z.WsServer.Handler.{Server, Visit, close_frame, data_frame, get_request}
use ray_z.WsServer.Handler.Requests.{Exchange, IsServer, serve_all, serve_all-IsServer}
use ray_z.WsServer.Optimized.{OptClient, in_close, in_data, in_handshake, ws_handler_optimized}
use ray_z.WsServer.Optimized.Entries.{entries_of}
use ray_z.WsServer.Optimized.Same.{handler_same}
use ray_z.WsServer.Task.{RoundTimes, tell_respawn}
use ray_z.WsServer.Task.Respawns.{respawn_message}

-- Two browsers connect, one of them twice, and a silent one is dropped.
abbrev visits : List Event
visits =
    Event.shake 1000 1001 (λ fd. true) 54
    ∷ Event.shake 2000 2001 (λ fd. true) 55
    ∷ Event.shake 3000 3001 (λ fd. true) 54
    ∷ Event.frame 4000 4001 54
    ∷ Event.tidy 40000 (λ fd. true)
    ∷ []

happen_all-IsTable_example : IsTable (happen_all visits init_clients)
happen_all-IsTable_example = happen_all-IsTable visits

-- Objects whose members are numbers; a number is the object with the one member "".
abbrev member : List (Bytes × ℤ) → Bytes → Option (List (Bytes × ℤ))
member [] key = none
member ((k, n) ∷ ms) key =
    let rest = member ms key in if str_eq k key then some (([], n) ∷ []) else rest

abbrev first_number : List (Bytes × ℤ) → ℤ
first_number [] = pos 0
first_number ((k, n) ∷ ms) = n

abbrev start_message : List (Bytes × ℤ)
start_message = (codes "op", pos 4) ∷ (codes "command", pos 1) ∷ []

abbrev hit_forward_message : List (Bytes × ℤ)
hit_forward_message = (codes "op", pos 5) ∷ (codes "shooter_id", pos 7) ∷ []

abbrev numbers : CJson
numbers = record {
  Item = List (Bytes × ℤ);
  parse = λ s.
      if str_eq s (codes "start")
      then some start_message
      else if str_eq s (codes "hit")
      then some hit_forward_message
      else none;
  get_object_item = member;
  is_true = λ i. false;
  is_string = λ i. false;
  is_null = λ i. false;
  is_number = λ i. true;
  is_array = λ i. false;
  valueint = first_number;
  valuestring = λ i. none;
  elements = λ i. [];
}

abbrev times : Times
times = record { at_op = 1000000; at_death = 1000010; at_status = 1000020; at_beat = 1000030 }

abbrev server : Server flash.Flash
server = record { clients = init_clients; store = []; game = alice }

abbrev visit : Visit
visit = record { at_tidy = 1000; at_add = 1001; at_touch = 1002; times = times }

-- A browser connects, starts a game and leaves.
abbrev session : List Exchange
session =
    record { visit = visit; healthy = λ fd. true; socket = 54; request = get_request }
    ∷ record {
      visit = visit;
      healthy = λ fd. true;
      socket = 54;
      request = data_frame 5 (some (codes "start"));
    }
    ∷ record { visit = visit; healthy = λ fd. true; socket = 54; request = close_frame }
    ∷ []

serve_all-IsServer_example : IsServer numbers flash (serve_all numbers flash session server)
serve_all-IsServer_example = serve_all-IsServer numbers flash session server (record {
  is_table = happen_all-IsTable [];
  is_phase = record { over_stopped = λ e. absurd (cc); paused_running = λ e. absurd (cc) };
})

-- A player whose respawn ends 5 s after power-up.
abbrev waiting : Vars
waiting = record alice {
  state = record zero_state { respawning = true; respawn_end_time_ms = 5000 };
}

-- A web round that looks a moment after the end.
abbrev looks : RoundTimes
looks = record {
  at_due = 6000000;
  at_status = 6000001;
  at_beat = 6000002;
  at_check = 6000003;
  at_send = 6000004;
}

respawn_message_example :
    (((tell_respawn looks waiting).0 ≢ [])
      × ((tell_respawn looks waiting).1.state.hearts_remaining ≡ waiting.game_cfg.max_hearts)
      × ((tell_respawn looks waiting).1.state.respawning ≡ false))
    × ((tell_respawn looks (game_round 5050000 5050001 waiting)).0 ≡ [])
respawn_message_example =
    respawn_message 5050000 5050001 looks waiting refl (omega arith) (omega arith)

-- One client is recent, one is silent.
abbrev both : List OptClient
both =
    (record {
      entry = record { fd = some 54; active = true; last_activity_ms = 39000 };
      supports_binary = true;
    })
    ∷ (record {
      entry = record { fd = some 55; active = true; last_activity_ms = 2000 };
      supports_binary = true;
    })
    ∷ replicate 6 (record { entry = free_client; supports_binary = false })

both-IsTable : IsTable (entries_of both)
both-IsTable = record { size = refl; unique = λ fd. ground arith }

handler_same_example :
    (entries_of (ws_handler_optimized 40000 40001 54 in_handshake both).2
      ≡ handshake 40000 40001 (λ fd. true) 54 (entries_of both))
    × (entries_of (ws_handler_optimized 40000 40001 54 in_close both).2
        ≡ (remove_client 54 (entries_of both)).1)
    × (find_client_by_fd 54 (entries_of both) ≢ none
        → entries_of
            (ws_handler_optimized 40000 40001 54 (in_data 5 true (some (codes "start"))) both).2
          ≡ receive_frame 40000 40001 54 (entries_of both))
    × (find_client_by_fd 54 (entries_of both) ≡ none
        → entries_of
            (ws_handler_optimized 40000 40001 54 (in_data 5 true (some (codes "start"))) both).2
          ≡ entries_of both)
handler_same_example =
    handler_same 40000 40001 54 5 (codes "start") both both-IsTable
      (
        (λ h e. cc),
        (
          (λ h e. cc),
          (
            (λ h. absurd cc),
            (
              (λ h. absurd cc),
              ((λ h. absurd cc), ((λ h. absurd cc), ((λ h. absurd cc), ((λ h. absurd cc), tt)))),
            ),
          ),
        ),
      )
      (omega arith) (omega arith)
