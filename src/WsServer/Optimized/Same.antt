-- ===== src/WsServer/Optimized/Same.antt =====
-- The request handlers of esp32/shared/src/ws_server_optimized.cpp and ws_server.cpp agree on the
-- client table.
use ray_z.Prelude.{
  Bool, Bool-cases, Bytes, List, Option-cases, [], ap, arith, false, inl, inr, leb, none, refl, set,
  some, sym, true, ℕ, ◌&&◌, ◌<◌, ◌==◌, ◌||◌, ◌∙◌, ◌∷◌, ◌≡◌, ◌≢◌, ◌≤◌,
}
use ray_z.WsServer.Clients.{
  WsClient, add_client, cleanup_stale, clear_fd, find_client_by_fd, find_client_slot, forget_known,
  handshake, is_fd, receive_frame, remove_client, touch, track_unknown,
}
use ray_z.WsServer.Clients.Counts.{count_fd, count_fd-cleanup_stale, count_fd-clear_fd_self}
use ray_z.WsServer.Clients.Lookup.{find_client_by_fd_iff}
use ray_z.WsServer.Clients.Table.{IsTable}
use ray_z.WsServer.Optimized.{
  OptClient, cleanup_stale_optimized, in_close, in_data, in_handshake, ws_handler_optimized,
}
use ray_z.WsServer.Optimized.Cleanup.{cleanup_same}
use ray_z.WsServer.Optimized.Entries.{
  AreBound, add_client_same, clear_fd_none, entries_of, remove_client_clears, remove_client_same,
  touch_same,
}

-- Adding a client, once its old entry is cleared.
abbrev place : ℕ → ℕ → List WsClient → Bool × List WsClient
place now fd cleared = elim (find_client_slot cleared) [
  | none ↦ (false, cleared)
  | some slot ↦
      (true, set cleared slot (record { fd = some fd; active = true; last_activity_ms = now }))
]

add_client_by_clear :
    (now fd : ℕ) (cs ds : List WsClient)
    → clear_fd fd cs ≡ clear_fd fd ds
    → add_client now fd cs ≡ add_client now fd ds
unfolding add_client
add_client_by_clear now fd cs ds same = ap (place now fd) same

clear_fd-forget_known :
    (fd : ℕ) (cs : List WsClient)
    → count_fd fd cs ≤ 1
    → clear_fd fd (forget_known fd cs) ≡ clear_fd fd cs
unfolding forget_known
clear_fd-forget_known fd cs one = elim (Option-cases (find_client_by_fd fd cs)) [
  | inl missing ↦ ground (arith, missing)
  | inr (slot, found) ↦
      let twice : clear_fd fd (clear_fd fd cs) ≡ clear_fd fd cs =
        clear_fd_none fd (clear_fd fd cs) (omega (arith, count_fd-clear_fd_self fd cs)) in
      ground (arith, found, twice, remove_client_clears fd cs)
]

track_unknown_known :
    (now fd : ℕ) (cs : List WsClient)
    → find_client_by_fd fd cs ≢ none
    → track_unknown now fd cs ≡ cs
unfolding track_unknown
track_unknown_known now fd cs tracked = elim (Option-cases (find_client_by_fd fd cs)) [
  | inl missing ↦ absurd (tracked missing)
  | inr (slot, found) ↦ ground (arith, found)
]

touch_none : (now fd : ℕ) (cs : List WsClient) → count_fd fd cs ≡ 0 → touch now fd cs ≡ cs
unfolding touch
touch_none now fd [] h = refl
touch_none now fd (c ∷ cs) h = elim (Bool-cases (c.active && is_fd fd c.fd)) [
  | inl mine ↦ absurd (ground (arith, mine))
  | inr other ↦ rw other (ap (λ t. c ∷ t) (touch_none now fd cs (ground (arith, h, other))))
]

data_same :
    (t u fd len : ℕ) (body : Bytes) (cs : List OptClient)
    → 0 < len
    → len < 1024
    → entries_of (ws_handler_optimized t u fd (in_data len true (some body)) cs).2
      ≡ touch u fd (entries_of cs)
unfolding ws_handler_optimized
data_same t u fd len body cs some_len short =
    let fits : (len == 0 || leb 1024 len) ≡ false = ground arith in rw fits (touch_same u fd cs)

handshake_same :
    (t u fd : ℕ) (cs : List OptClient)
    → IsTable (entries_of cs)
    → AreBound (entries_of cs)
    → entries_of (ws_handler_optimized t u fd in_handshake cs).2
      ≡ handshake t u (λ fd. true) fd (entries_of cs)
unfolding ws_handler_optimized handshake
handshake_same t u fd cs h b =
    let cleaned = cleanup_stale t (λ fd. true) (entries_of cs) in
    let one : count_fd fd cleaned ≤ 1 =
      omega (arith, count_fd-cleanup_stale t (λ fd. true) fd (entries_of cs), h.unique fd) in
    add_client_same u fd true (cleanup_stale_optimized t cs).1
    ∙ ap (λ x. (add_client u fd x).1) (cleanup_same t cs h b)
    ∙ ap (λ p. p.1)
        (sym (
          add_client_by_clear u fd (forget_known fd cleaned) cleaned
            (clear_fd-forget_known fd cleaned one)))

-- On a table without two entries for a socket, whose active entries have a socket, and if no socket
-- reports an error, the handler of either server does the same to the table at a handshake, at a
-- close frame, and at a text frame from a known socket; from an unknown one the optimised server
-- leaves the table as it is.
pub handler_same :
    (t u fd len : ℕ) (body : Bytes) (cs : List OptClient)
    → IsTable (entries_of cs)
    → AreBound (entries_of cs)
    → 0 < len
    → len < 1024
    → (entries_of (ws_handler_optimized t u fd in_handshake cs).2
        ≡ handshake t u (λ fd. true) fd (entries_of cs))
      × (entries_of (ws_handler_optimized t u fd in_close cs).2
          ≡ (remove_client fd (entries_of cs)).1)
      × (find_client_by_fd fd (entries_of cs) ≢ none
          → entries_of (ws_handler_optimized t u fd (in_data len true (some body)) cs).2
            ≡ receive_frame t u fd (entries_of cs))
      × (find_client_by_fd fd (entries_of cs) ≡ none
          → entries_of (ws_handler_optimized t u fd (in_data len true (some body)) cs).2
            ≡ entries_of cs)
unfolding ws_handler_optimized receive_frame
handler_same t u fd len body cs h b some_len short = (
  handshake_same t u fd cs h b,
  remove_client_same fd cs ∙ sym (remove_client_clears fd (entries_of cs)),
  λ tracked.
      data_same t u fd len body cs some_len short
      ∙ ap (touch u fd) (sym (track_unknown_known t fd (entries_of cs) tracked)),
  λ missing.
      data_same t u fd len body cs some_len short
      ∙ touch_none u fd (entries_of cs)
          (ground (arith, missing, find_client_by_fd_iff fd (entries_of cs))),
)
