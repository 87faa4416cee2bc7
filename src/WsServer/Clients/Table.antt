-- ===== src/WsServer/Clients/Table.antt =====
-- The table of clients has a fixed size and at most one entry for a socket
-- (esp32/shared/src/ws_server.cpp).
use ray_z.Prelude.{
  Bool, List, [], ap, arith, length, refl, ℕ, ◌∷◌, ◌≡◌, ◌≤◌, Option-cases, inl, inr, ◌∙◌, ==-cases,
  ◌⊎◌,
}
use ray_z.WsServer.Clients.{
  WsClient, cleanup_stale, clear_fd, max_ws_clients, add_client, find_client_by_fd, init_clients,
  remove_client, handshake, receive_frame, forget_known, track_unknown,
}
use ray_z.WsServer.Clients.Counts.{
  count_fd, count_fd-cleanup_stale, count_fd-clear_fd_other, count_fd-clear_fd_self, count_fd-touch,
  fill_slot_lem, length-cleanup_stale, length-clear_fd, add_client_crowded, add_client_filled,
  fill_slot,
}

pub record IsTable (cs : List WsClient) : Type 0 where
  pub size : length cs ≡ max_ws_clients
  pub unique : (fd : ℕ) → count_fd fd cs ≤ 1

clear_fd-IsTable : (fd : ℕ) (cs : List WsClient) → IsTable cs → IsTable (clear_fd fd cs)
clear_fd-IsTable fd cs h = record {
  size = length-clear_fd fd cs ∙ h.size;
  unique = λ q. elim (==-cases q fd) [
    | inl same ↦ omega (
      arith,
      ap (λ x. count_fd x (clear_fd fd cs)) same,
      count_fd-clear_fd_self fd cs,
      h.unique fd,
    )
    | inr other ↦ omega (arith, count_fd-clear_fd_other fd q cs other, h.unique q)
  ];
}

init_clients-IsTable : IsTable init_clients
init_clients-IsTable = record { size = refl; unique = λ fd. omega arith }

remove_client-cases :
    (fd : ℕ) (cs : List WsClient)
    → ((remove_client fd cs).1 ≡ cs) ⊎ ((remove_client fd cs).1 ≡ clear_fd fd cs)
unfolding remove_client
remove_client-cases fd cs = elim (Option-cases (find_client_by_fd fd cs)) [
  | inl missing ↦ inl (ground (arith, missing))
  | inr (slot, found) ↦ inr (ground (arith, found))
]

forget_known-cases :
    (fd : ℕ) (cs : List WsClient)
    → (forget_known fd cs ≡ cs) ⊎ (forget_known fd cs ≡ (remove_client fd cs).1)
unfolding forget_known
forget_known-cases fd cs = elim (Option-cases (find_client_by_fd fd cs)) [
  | inl missing ↦ inl (ground (arith, missing))
  | inr (slot, found) ↦ inr (ground (arith, found))
]

track_unknown-cases :
    (now fd : ℕ) (cs : List WsClient)
    → (track_unknown now fd cs ≡ cs) ⊎ (track_unknown now fd cs ≡ (add_client now fd cs).1)
unfolding track_unknown
track_unknown-cases now fd cs = elim (Option-cases (find_client_by_fd fd cs)) [
  | inl missing ↦ inr (ground (arith, missing))
  | inr (slot, found) ↦ inl (ground (arith, found))
]

add_client-IsTable :
    (now fd : ℕ) (cs : List WsClient) → IsTable cs → IsTable (add_client now fd cs).1
add_client-IsTable now fd cs h = elim (Option-cases (fill_slot fd now (clear_fd fd cs))) [
  | inl crowded ↦ rw (add_client_crowded now fd cs crowded) (clear_fd-IsTable fd cs h)
  | inr (ds, filled) ↦
      let (size, self, others) = fill_slot_lem fd now (clear_fd fd cs) ds filled in
      rw (add_client_filled now fd cs ds filled) (record {
        size = size ∙ length-clear_fd fd cs ∙ h.size;
        unique = λ q. elim (==-cases q fd) [
          | inl same ↦
              omega (
                arith,
                ap (λ x. count_fd x ds) same,
                self,
                count_fd-clear_fd_self fd cs,
                h.unique fd,
              )
          | inr other ↦
              omega (arith, others q other, count_fd-clear_fd_other fd q cs other, h.unique q)
        ];
      })
]

remove_client-IsTable : (fd : ℕ) (cs : List WsClient) → IsTable cs → IsTable (remove_client fd cs).1
remove_client-IsTable fd cs h = elim (remove_client-cases fd cs) [
  | inl same ↦ rw same h
  | inr cleared ↦ rw cleared (clear_fd-IsTable fd cs h)
]

cleanup_stale-IsTable :
    (now : ℕ) (healthy : ℕ → Bool) (cs : List WsClient)
    → IsTable cs
    → IsTable (cleanup_stale now healthy cs)
cleanup_stale-IsTable now healthy cs h = record {
  size = length-cleanup_stale now healthy cs ∙ h.size;
  unique = λ q. omega (arith, count_fd-cleanup_stale now healthy q cs, h.unique q);
}

forget_known-IsTable : (fd : ℕ) (cs : List WsClient) → IsTable cs → IsTable (forget_known fd cs)
forget_known-IsTable fd cs h = elim (forget_known-cases fd cs) [
  | inl same ↦ rw same h
  | inr removed ↦ rw removed (remove_client-IsTable fd cs h)
]

track_unknown-IsTable :
    (now fd : ℕ) (cs : List WsClient) → IsTable cs → IsTable (track_unknown now fd cs)
track_unknown-IsTable now fd cs h = elim (track_unknown-cases now fd cs) [
  | inl same ↦ rw same h
  | inr added ↦ rw added (add_client-IsTable now fd cs h)
]

-- What happens to the table: a handshake, a text frame, an end of a connection, a clean-up.
pub data Event : Type 0 where
  shake : ℕ → ℕ → (ℕ → Bool) → ℕ → Event
  frame : ℕ → ℕ → ℕ → Event
  leave : ℕ → Event
  tidy : ℕ → (ℕ → Bool) → Event

abbrev pub happen : Event → List WsClient → List WsClient
happen (Event.shake t u healthy fd) cs = handshake t u healthy fd cs
happen (Event.frame t u fd) cs = receive_frame t u fd cs
happen (Event.leave fd) cs = (remove_client fd cs).1
happen (Event.tidy now healthy) cs = cleanup_stale now healthy cs

abbrev pub happen_all : List Event → List WsClient → List WsClient
happen_all [] cs = cs
happen_all (e ∷ es) cs = happen_all es (happen e cs)

pub happen-IsTable : (e : Event) (cs : List WsClient) → IsTable cs → IsTable (happen e cs)
unfolding handshake receive_frame
happen-IsTable (Event.shake t u healthy fd) cs h =
    add_client-IsTable u fd (forget_known fd (cleanup_stale t healthy cs))
      (forget_known-IsTable fd (cleanup_stale t healthy cs) (cleanup_stale-IsTable t healthy cs h))
happen-IsTable (Event.frame t u fd) cs h =
    let tracked = track_unknown-IsTable t fd cs h in
    record {
      size = (count_fd-touch u fd fd (track_unknown t fd cs)).1 ∙ tracked.size;
      unique = λ q. omega (arith, count_fd-touch u fd q (track_unknown t fd cs), tracked.unique q);
    }
happen-IsTable (Event.leave fd) cs h = remove_client-IsTable fd cs h
happen-IsTable (Event.tidy now healthy) cs h = cleanup_stale-IsTable now healthy cs h

-- From the table that the server starts with, after any sequence of handshakes, text frames, ends
-- of connections and clean-ups, the table has its 8 entries and no socket has two active ones.
pub happen_all-IsTable : (es : List Event) → IsTable (happen_all es init_clients)
happen_all-IsTable es = go es init_clients init_clients-IsTable
  where
    go : (es : List Event) (cs : List WsClient) → IsTable cs → IsTable (happen_all es cs)
    go [] cs h = h
    go (e ∷ es) cs h = go es (happen e cs) (happen-IsTable e cs h)
