-- ===== src/WsServer/Clients.antt =====
-- The table of WebSocket clients of esp32/shared/src/ws_server.cpp. The mutex only serialises the
-- functions, so it is left out.
pub mod Counts
pub mod Table
pub mod Lookup
use mathlib.Core.Option
use ray_z.Prelude.{
  Bool, List, Option, [], false, if◌then◌else◌, ltb, none, not, replicate, some, sub32, suc, true,
  ℕ, ◌&&◌, ◌==◌, ◌||◌, ◌∷◌, set,
}

abbrev pub max_ws_clients : ℕ
max_ws_clients = 8

abbrev pub ws_client_timeout_ms : ℕ
ws_client_timeout_ms = 30000

-- A socket is a number; `none` is the -1 of a free slot.
pub record WsClient : Type 0 where
  pub fd : Option ℕ
  pub active : Bool
  pub last_activity_ms : ℕ  -- uint32

abbrev pub free_client : WsClient
free_client = record { fd = none; active = false; last_activity_ms = 0 }

-- `s_clients` after `ws_server_init`.
abbrev pub init_clients : List WsClient
init_clients = replicate max_ws_clients free_client

abbrev pub is_fd : ℕ → Option ℕ → Bool
is_fd fd none = false
is_fd fd (some fd') = fd' == fd

unfoldable pub find_client_slot : List WsClient → Option ℕ
find_client_slot [] = none
find_client_slot (c ∷ cs) =
    let rest = Option.map suc (find_client_slot cs) in if not c.active then some 0 else rest

unfoldable pub find_client_by_fd : ℕ → List WsClient → Option ℕ
find_client_by_fd fd [] = none
find_client_by_fd fd (c ∷ cs) =
    let rest = Option.map suc (find_client_by_fd fd cs) in
    if c.active && is_fd fd c.fd then some 0 else rest

-- The first active entry of the socket is cleared; also the effect of `remove_client`.
unfoldable pub clear_fd : ℕ → List WsClient → List WsClient
clear_fd fd [] = []
clear_fd fd (c ∷ cs) =
    let rest = clear_fd fd cs in
    if c.active && is_fd fd c.fd then record c { active = false; fd = none } ∷ cs else c ∷ rest

-- The flag tells whether `on_connect` is called.
unfoldable pub add_client : ℕ → ℕ → List WsClient → Bool × List WsClient
add_client now fd cs =
    let cleared = clear_fd fd cs in
    elim (find_client_slot cleared) [
      | none ↦ (false, cleared)
      | some slot ↦
          (true, set cleared slot (record { fd = some fd; active = true; last_activity_ms = now }))
    ]

-- The flag tells whether `on_connect` is called, for a disconnect.
unfoldable pub remove_client : ℕ → List WsClient → Bool × List WsClient
remove_client fd cs = elim (find_client_by_fd fd cs) [
  | none ↦ (false, cs)
  | some slot ↦ (true, clear_fd fd cs)
]

-- A client is dropped when it was silent for too long or `getsockopt` reports an error;
-- `healthy` is its answer for a socket.
unfoldable pub is_stale : ℕ → (ℕ → Bool) → WsClient → Bool
is_stale now healthy c =
    ltb ws_client_timeout_ms (sub32 now c.last_activity_ms)
    || not (elim c.fd [ none ↦ false | some fd ↦ healthy fd ])

unfoldable pub cleanup_stale : ℕ → (ℕ → Bool) → List WsClient → List WsClient
cleanup_stale now healthy [] = []
cleanup_stale now healthy (c ∷ cs) =
    (if c.active && is_stale now healthy c then record c { active = false; fd = none } else c)
    ∷ cleanup_stale now healthy cs

unfoldable pub is_connected : List WsClient → Bool
is_connected [] = false
is_connected (c ∷ cs) = c.active || is_connected cs

unfoldable pub client_count : List WsClient → ℕ
client_count [] = 0
client_count (c ∷ cs) = let rest = client_count cs in if c.active then suc rest else rest

-- The sockets that `ws_server_broadcast` sends to.
unfoldable pub broadcast_fds : List WsClient → List (Option ℕ)
broadcast_fds [] = []
broadcast_fds (c ∷ cs) = let rest = broadcast_fds cs in if c.active then c.fd ∷ rest else rest

-- The new time of activity of a client's entry, if it has one.
unfoldable pub touch : ℕ → ℕ → List WsClient → List WsClient
touch now fd [] = []
touch now fd (c ∷ cs) =
    let rest = touch now fd cs in
    if c.active && is_fd fd c.fd then record c { last_activity_ms = now } ∷ cs else c ∷ rest

-- The steps of `ws_handler` that depend on whether the socket is known: at a handshake the old
-- entry goes, at a text frame a new one comes.
unfoldable pub forget_known : ℕ → List WsClient → List WsClient
forget_known fd cs = elim (find_client_by_fd fd cs) [
  | none ↦ cs
  | some slot ↦ (remove_client fd cs).1
]

unfoldable pub track_unknown : ℕ → ℕ → List WsClient → List WsClient
track_unknown now fd cs = elim (find_client_by_fd fd cs) [
  | none ↦ (add_client now fd cs).1
  | some slot ↦ cs
]

-- The handshake of `ws_handler`, at the time `t` of the clean-up and `u` of the new entry.
unfoldable pub handshake : ℕ → ℕ → (ℕ → Bool) → ℕ → List WsClient → List WsClient
handshake t u healthy fd cs = (add_client u fd (forget_known fd (cleanup_stale t healthy cs))).1

-- What `ws_handler` does to the table on a text frame, before the message is processed.
unfoldable pub receive_frame : ℕ → ℕ → ℕ → List WsClient → List WsClient
receive_frame t u fd cs = touch u fd (track_unknown t fd cs)
