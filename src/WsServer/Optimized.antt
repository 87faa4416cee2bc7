-- ===== src/WsServer/Optimized.antt =====
-- The other implementation of the client table, esp32/shared/src/ws_server_optimized.cpp, which
-- offers the same interface with other names and asynchronous sends. The mutex only serialises the
-- functions, so it is left out.
pub mod Entries
pub mod Cleanup
pub mod Same
use mathlib.Core.Option
use ray_z.Prelude.{
  Bool, Bytes, List, Option, [], false, if◌then◌else◌, is_empty, leb, ltb, none, not, replicate,
  set, some, sub32, suc, true, ℕ, ◌&&◌, ◌==◌, ◌||◌, ◌∷◌,
}
use ray_z.WsServer.Clients.{WsClient, free_client, is_fd, max_ws_clients, ws_client_timeout_ms}

-- `ws_client_t`: the entry has the fields that the clients of ws_server.cpp have.
pub record OptClient : Type 0 where
  pub entry : WsClient
  pub supports_binary : Bool

abbrev pub init_client_array : List OptClient
init_client_array =
    replicate max_ws_clients (record { entry = free_client; supports_binary = false })

-- The test `fd == client fd` of the source, where `none` is its -1.
abbrev pub is_sock : Option ℕ → Option ℕ → Bool
is_sock (some fd) x = is_fd fd x
is_sock none none = true
is_sock none (some fd) = false

abbrev pub is_entry : Option ℕ → OptClient → Bool
is_entry fd c = c.entry.active && is_sock fd c.entry.fd

abbrev pub freed : OptClient → OptClient
freed c = record c { entry = record c.entry { active = false; fd = none } }

unfoldable pub find_client_slot_optimized : List OptClient → Option ℕ
find_client_slot_optimized [] = none
find_client_slot_optimized (c ∷ cs) =
    let rest = Option.map suc (find_client_slot_optimized cs) in
    if not c.entry.active then some 0 else rest

unfoldable pub find_client_by_fd_optimized : Option ℕ → List OptClient → Option ℕ
find_client_by_fd_optimized fd [] = none
find_client_by_fd_optimized fd (c ∷ cs) =
    let rest = Option.map suc (find_client_by_fd_optimized fd cs) in
    if is_entry fd c then some 0 else rest

-- The first active entry of the socket is cleared; also the effect of `remove_client`.
unfoldable pub remove_stale_fd_unsafe : Option ℕ → List OptClient → List OptClient
remove_stale_fd_unsafe fd [] = []
remove_stale_fd_unsafe fd (c ∷ cs) =
    let rest = remove_stale_fd_unsafe fd cs in if is_entry fd c then freed c ∷ cs else c ∷ rest

-- The flag tells whether `on_connect` is called.
unfoldable pub add_client_optimized : ℕ → ℕ → Bool → List OptClient → Bool × List OptClient
add_client_optimized now fd binary cs =
    let cleared = remove_stale_fd_unsafe (some fd) cs in
    elim (find_client_slot_optimized cleared) [
      | none ↦ (false, cleared)
      | some slot ↦ (
        true,
        set cleared slot (record {
          entry = record { fd = some fd; active = true; last_activity_ms = now };
          supports_binary = binary;
        }),
      )
    ]

-- The flag tells whether `on_connect` is called, for a disconnect.
unfoldable pub remove_client_optimized : Option ℕ → List OptClient → Bool × List OptClient
remove_client_optimized fd cs = elim (find_client_by_fd_optimized fd cs) [
  | none ↦ (false, cs)
  | some slot ↦ (true, remove_stale_fd_unsafe fd cs)
]

unfoldable pub update_client_activity : ℕ → ℕ → List OptClient → List OptClient
update_client_activity now fd [] = []
update_client_activity now fd (c ∷ cs) =
    let rest = update_client_activity now fd cs in
    if is_entry (some fd) c
    then record c { entry = record c.entry { last_activity_ms = now } } ∷ cs
    else c ∷ rest

-- `stale_fds`; `none` is a socket of -1.
unfoldable pub stale_fds : ℕ → List OptClient → List (Option ℕ)
stale_fds now [] = []
stale_fds now (c ∷ cs) =
    let rest = stale_fds now cs in
    if c.entry.active && ltb ws_client_timeout_ms (sub32 now c.entry.last_activity_ms)
    then c.entry.fd ∷ rest
    else rest

-- The second loop of the clean-up, with the sockets for which `on_connect` is called.
unfoldable pub remove_each : List (Option ℕ) → List OptClient → List (Option ℕ) × List OptClient
remove_each [] cs = ([], cs)
remove_each (fd ∷ fds) cs =
    let (found, cs1) = remove_client_optimized fd cs in
    let (told, cs2) = remove_each fds cs1 in (if found then fd ∷ told else told, cs2)

unfoldable pub cleanup_stale_optimized : ℕ → List OptClient → List (Option ℕ) × List OptClient
cleanup_stale_optimized now cs = remove_each (stale_fds now cs) cs

unfoldable pub is_connected_optimized : List OptClient → Bool
is_connected_optimized [] = false
is_connected_optimized (c ∷ cs) = c.entry.active || is_connected_optimized cs

unfoldable pub client_count_optimized : List OptClient → ℕ
client_count_optimized [] = 0
client_count_optimized (c ∷ cs) =
    let rest = client_count_optimized cs in if c.entry.active then suc rest else rest

-- The sockets to which a broadcast or a ping goes.
unfoldable pub active_fds : List OptClient → List (Option ℕ)
active_fds [] = []
active_fds (c ∷ cs) = let rest = active_fds cs in if c.entry.active then c.entry.fd ∷ rest else rest

-- `running` is whether there is a server, `sent` whether the library takes the frame.
unfoldable pub send_raw_optimized :
    Bool → Bool → ℕ → ℕ → Bytes → List OptClient → Bool × List OptClient
send_raw_optimized running sent now fd body cs =
    if (not running || is_empty body) || not sent
    then (false, cs)
    else (true, update_client_activity now fd cs)

-- The sends of a broadcast, one after the other; the library's answer and the time of a send are
-- given for each socket.
unfoldable pub send_each :
    Bool → (ℕ → Bool) → (ℕ → ℕ) → Bytes → List (Option ℕ) → List OptClient → List OptClient
send_each running sent at body [] cs = cs
send_each running sent at body (none ∷ fds) cs = send_each running sent at body fds cs
send_each running sent at body (some fd ∷ fds) cs =
    send_each running sent at body fds (send_raw_optimized running (sent fd) (at fd) fd body cs).1

unfoldable pub broadcast_raw_optimized :
    Bool → (ℕ → Bool) → (ℕ → ℕ) → Bytes → List OptClient → List OptClient
broadcast_raw_optimized running sent at body cs =
    if is_empty body then cs else send_each running sent at body (active_fds cs) cs

unfoldable pub ping_clients : Bool → List OptClient → List (Option ℕ)
ping_clients running cs = if not running then [] else active_fds cs

-- What a request brings: a handshake, or what the two receipts of a frame give; of a data frame its
-- length, whether there is memory for it, and its payload if the second receipt succeeds.
pub data Incoming : Type 0 where
  in_handshake in_error in_pong in_close : Incoming
  in_data : ℕ → Bool → Option Bytes → Incoming

pub data HandlerResult : Type 0 where
  result_ok result_close result_no_mem result_error : HandlerResult

-- `ws_handler` at the time `t` of its clean-up and `u` of its last look at the clock: what it
-- returns, the payload that `on_message` is given, if any, and the table.
unfoldable pub ws_handler_optimized :
    ℕ → ℕ → ℕ → Incoming → List OptClient → HandlerResult × Option Bytes × List OptClient
ws_handler_optimized t u fd in_handshake cs =
    (result_ok, none, (add_client_optimized u fd true (cleanup_stale_optimized t cs).1).1)
ws_handler_optimized t u fd in_error cs = (result_error, none, cs)
ws_handler_optimized t u fd in_pong cs = (result_ok, none, update_client_activity u fd cs)
ws_handler_optimized t u fd in_close cs =
    (result_close, none, (remove_client_optimized (some fd) cs).1)
ws_handler_optimized t u fd (in_data len memory payload) cs =
    if len == 0 || leb 1024 len
    then (result_ok, none, cs)
    else if not memory
    then (result_no_mem, none, cs)
    else elim payload [
      | none ↦ (result_error, none, cs)
      | some body ↦ (result_ok, some body, update_client_activity u fd cs)
    ]
