-- ===== src/Lib.antt =====
-- The game logic of the RayZ laser tag devices (esp32/): two firmwares, a weapon and a target, and
-- the library that they share.
--
-- A weapon sends its player and device identifiers as a 32-bit word over a laser, bit by bit. A
-- target samples a photodiode, averages three samples into a bit, keeps the last 32 bits in a ring
-- and reads the ring as a word after every bit. A word whose hashes fit is a shot; seen twice in
-- 500 ms it is a hit, which costs a heart, starts the respawn timer and is reported by radio. The
-- weapon that is named in a report counts a kill. Both devices keep the same game state:
-- configuration, counters, phase of the game, player names, and the identity, which is kept in
-- flash.
--
-- - Prelude: lists, words, texts and tests that the parts share.
-- - Protocol: the constants of esp32/shared/include/protocol_config.h and the structures of
--   esp32/shared/include/game_protocol.h. Events: the messages between tasks and devices.
-- - Laser: the codec of esp32/shared/include/hash.h and `sendMessage` of
--   esp32/weapon/src/tasks/laser_task.cpp. Laser.Hash, Laser.Codec, Laser.Wire: its proofs.
-- - Photodiode: the class of esp32/target/src/photodiode.cpp and the round of
--   esp32/target/src/tasks/photodiode_task.cpp, over a parameter for the type `float`.
--   Photodiode.Ring: the ring as a sliding window; Photodiode.Receive: what is read from it;
--   Photodiode.Sampling: the rounds.
-- - Hit: esp32/target/src/tasks/processing_task.cpp and game_task.cpp. Hit.Filter: sequences of
--   words; Hit.Strike: one hit; Hit.TwoWords: a word seen twice.
-- - Trigger: esp32/weapon/src/tasks/control_task.cpp and the two radio tasks. Trigger.Shots: the
--   shots; Trigger.Credit: who is credited with a hit.
-- - GameState: esp32/shared/src/game_state.cpp, function by function under the same names without
--   their prefix: Config, Runtime (counters, hearts, respawn), Control (the phases of a game),
--   Roster (the player names), Ids (the identity), Texts (the JSON texts, with an independent reader in
--   Texts.Reader and a proof in Texts.Members).
-- - NvsStore: esp32/shared/src/nvs_store.cpp over the flash library as a parameter with its
--   documented laws.
-- - WsServer: esp32/shared/src/ws_server.cpp. WsServer.Messages: what is sent; WsServer.Clients: the
--   table of clients, with its proofs in Counts, Table and Lookup; WsServer.Commands and
--   WsServer.Dispatch: the handlers of the messages that arrive, over the cJSON library as a
--   parameter, with proofs in Updates, Phases and Effects; WsServer.Handler: the request handler;
--   WsServer.Optimized: the client table of esp32/shared/src/ws_server_optimized.cpp, which is not built
--   today, compared with that of ws_server.cpp in Entries, Cleanup and Same;
--   WsServer.Task: the rounds of esp32/target/src/tasks/ws_task.cpp and
--   esp32/weapon/src/tasks/ws_task.cpp.
-- - Wifi: the handler of a lost connection in esp32/shared/src/wifi_core.cpp, as the calls it makes
--   of the driver; Wifi.Calls counts calls, Wifi.Retry follows a series of losses. Wifi.Start: the
--   start of the station and of the access point there, with proofs in Strongest and Joined.
--   Wifi.Scan: the list of networks of esp32/shared/src/wifi_http.cpp, with a proof in Page.
--   Wifi.Routes: what is registered with the HTTP library, a parameter, with a proof in Portal.
--   Wifi.Provision: the form of esp32/shared/src/wifi_http.cpp and the boot mode, with proofs in
--   Search, Stored and Encoded.
-- - Dns: the packets and the task of esp32/shared/src/dns_server.cpp; Dns.Reader reads replies as a
--   client does, Dns.Answers and Dns.Life are proofs.
-- - HttpApi: esp32/shared/src/wifi_manager.cpp, wifi_state.cpp and http_api.cpp, and the loading of
--   the peers in esp32/target/src/tasks/espnow_task.cpp. HttpApi.PeerList: a list and a restart.
-- - Mdns: esp32/shared/src/mdns_service.cpp over the mDNS library as a parameter, with a proof in
--   Mdns.Announced.
-- - ResetButton: the monitor in esp32/target/src/main.cpp and the check of
--   esp32/shared/src/gpio_init.cpp, with a proof in ResetButton.Held.
-- - EspNow: esp32/shared/src/espnow_comm.cpp over the ESP-NOW library as a parameter; Mac: its
--   addresses as text. EspNow.Tokens, EspNow.AddPeer, EspNow.Peers,
--   EspNow.Broadcast and Mac.Print are proofs.
-- - Utils: esp32/shared/src/utils.cpp, with a proof in Utils.Binary.
-- - Display: the state machine of esp32/shared/src/display_manager.cpp. Display.Timed: deadlines;
--   Display.Alerts: what is shown.
-- - Tests: the theorems at concrete inputs.
--
-- State is passed explicitly: a function that changes file-scope variables takes the record of
-- them and returns the new one. An unsigned word of w bits is a natural number below 2^w, with its
-- wrap-around written out; a `char` array is the list of the bytes before its NUL. The timer is an
-- argument, in microseconds as `esp_timer_get_time` returns it, one for each call; so are random
-- numbers, the outcome of taking a mutex, and the answers of other components. What a task does to
-- the outside is the list of its actions. Loops over arrays recurse on the number of rounds that
-- are left, so no fuel is needed, and a loop that never ends is modelled by its round.
--
-- Not modelled: logging, the set-up of pins, queues, tasks and the display, the pages of the
-- HTTP server that only show, and what the widgets of the display draw.
pub mod Prelude
pub mod Protocol
pub mod Laser
pub mod GameState
pub mod NvsStore
pub mod Photodiode
pub mod Events
pub mod Wifi
pub mod Dns
pub mod Mac
pub mod EspNow
pub mod HttpApi
pub mod Mdns
pub mod ResetButton
pub mod Utils
pub mod WsServer
pub mod Hit
pub mod Trigger
pub mod Display
pub mod Tests
