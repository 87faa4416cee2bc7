-- ===== src/WsServer/Clients/Lookup.antt =====
-- Who is connected, and whom a broadcast reaches (esp32/shared/src/ws_server.cpp).
use ray_z.Prelude.{
  List, Option, Option-cases, [], arith, if◌then◌else◌, inl, inr, length, none, refl, suc, true, ℕ,
  ◌<◌, ◌↔◌, ◌∷◌, ◌≡◌, ◌≢◌, ◌≤◌, ◌⊎◌, Bool-cases, min, ◌&&◌, ◌+◌,
}
use ray_z.WsServer.Clients.{
  WsClient, add_client, broadcast_fds, clear_fd, client_count, find_client_by_fd, is_connected,
  is_fd,
}
use ray_z.WsServer.Clients.Counts.{
  count_fd, count_fd-clear_fd_other, count_fd-clear_fd_self, fill_slot_lem, length-clear_fd,
  add_client_crowded, add_client_filled, fill_slot,
}
use ray_z.WsServer.Clients.Table.{IsTable}

-- How often a socket stands in a list of them.
abbrev pub occurs : ℕ → List (Option ℕ) → ℕ
occurs fd [] = 0
occurs fd (x ∷ xs) = let rest = occurs fd xs in if is_fd fd x then suc rest else rest

occurs-broadcast_fds : (fd : ℕ) (cs : List WsClient) → occurs fd (broadcast_fds cs) ≡ count_fd fd cs
unfolding broadcast_fds
occurs-broadcast_fds fd [] = refl
occurs-broadcast_fds fd (c ∷ cs) = ground (arith, occurs-broadcast_fds fd cs)

length-broadcast_fds : (cs : List WsClient) → length (broadcast_fds cs) ≡ client_count cs
unfolding broadcast_fds client_count
length-broadcast_fds [] = refl
length-broadcast_fds (c ∷ cs) = ground (arith, length-broadcast_fds cs)

is_connected_iff : (cs : List WsClient) → (is_connected cs ≡ true) ↔ (1 ≤ client_count cs)
unfolding is_connected client_count
is_connected_iff [] = ground arith
is_connected_iff (c ∷ cs) = ground (arith, is_connected_iff cs)

client_count-bound : (cs : List WsClient) → client_count cs ≤ length cs
unfolding client_count
client_count-bound [] = omega arith
client_count-bound (c ∷ cs) = ground (arith, client_count-bound cs)

pub find_client_by_fd_iff :
    (fd : ℕ) (cs : List WsClient) → (find_client_by_fd fd cs ≢ none) ↔ (1 ≤ count_fd fd cs)
unfolding find_client_by_fd
find_client_by_fd_iff fd [] = ground arith
find_client_by_fd_iff fd (c ∷ cs) = elim (Option-cases (find_client_by_fd fd cs)) [
  | inl missing ↦ ground (arith, find_client_by_fd_iff fd cs, missing)
  | inr (slot, found) ↦ ground (arith, find_client_by_fd_iff fd cs, found)
]

-- A broadcast of a consistent table goes to each socket that the table knows exactly once and to
-- no other, to as many as are counted; there are at most 8, and the server is connected exactly if
-- there is one.
pub broadcast_lem :
    (cs : List WsClient)
    → IsTable cs
    → ((fd : ℕ)
        → ((occurs fd (broadcast_fds cs) ≡ 1) ↔ (find_client_by_fd fd cs ≢ none))
          × (occurs fd (broadcast_fds cs) ≤ 1))
      × (length (broadcast_fds cs) ≡ client_count cs)
      × (client_count cs ≤ 8)
      × ((is_connected cs ≡ true) ↔ (1 ≤ client_count cs))
broadcast_lem cs h = (
  λ fd. ground (arith, occurs-broadcast_fds fd cs, find_client_by_fd_iff fd cs, h.unique fd),
  length-broadcast_fds cs,
  omega (arith, client_count-bound cs, h.size),
  is_connected_iff cs,
)

fill_slot-none :
    (fd now : ℕ) (cs : List WsClient) → (fill_slot fd now cs ≡ none) ↔ (client_count cs ≡ length cs)
unfolding fill_slot client_count
fill_slot-none fd now [] = ground arith
fill_slot-none fd now (c ∷ cs) = elim (Option-cases (fill_slot fd now cs)) [
  | inl crowded ↦ ground (arith, fill_slot-none fd now cs, client_count-bound cs, crowded)
  | inr (ds, filled) ↦ ground (arith, fill_slot-none fd now cs, client_count-bound cs, filled)
]

client_count-clear_fd :
    (fd : ℕ) (cs : List WsClient)
    → client_count (clear_fd fd cs) + min 1 (count_fd fd cs) ≡ client_count cs
unfolding clear_fd client_count
client_count-clear_fd fd [] = omega arith
client_count-clear_fd fd (c ∷ cs) = elim (Bool-cases (c.active && is_fd fd c.fd)) [
  | inl entry ↦
      let active : c.active ≡ true = ground (arith, entry) in rw (entry, active) (omega arith)
  | inr other ↦ rw other (ground (arith, client_count-clear_fd fd cs))
]

-- Adding a client to a consistent table makes its socket known exactly if it was known before or a
-- slot was free; the callback is called in this case only, and no other socket comes or goes.
pub add_client_iff :
    (now fd : ℕ) (cs : List WsClient)
    → IsTable cs
    → ((find_client_by_fd fd (add_client now fd cs).1 ≢ none)
        ↔ ((find_client_by_fd fd cs ≢ none) ⊎ (client_count cs < 8)))
      × (((add_client now fd cs).0 ≡ true) ↔ (find_client_by_fd fd (add_client now fd cs).1 ≢ none))
      × ((q : ℕ)
          → q ≢ fd
          → ((find_client_by_fd q (add_client now fd cs).1 ≢ none)
              ↔ (find_client_by_fd q cs ≢ none)))
add_client_iff now fd cs h = elim (Option-cases (fill_slot fd now (clear_fd fd cs))) [
  | inl crowded ↦ rw (add_client_crowded now fd cs crowded) (
    ground (
      arith,
      crowded,
      h.size,
      h.unique fd,
      fill_slot-none fd now (clear_fd fd cs),
      length-clear_fd fd cs,
      client_count-clear_fd fd cs,
      client_count-bound cs,
      find_client_by_fd_iff fd cs,
      find_client_by_fd_iff fd (clear_fd fd cs),
      count_fd-clear_fd_self fd cs,
    ),
    ground (
      arith,
      find_client_by_fd_iff fd (clear_fd fd cs),
      h.unique fd,
      count_fd-clear_fd_self fd cs,
    ),
    λ q ne. ground (
      arith,
      find_client_by_fd_iff q cs,
      find_client_by_fd_iff q (clear_fd fd cs),
      count_fd-clear_fd_other fd q cs ne,
    ),
  )
  | inr (ds, filled) ↦
      let (size, self, others) = fill_slot_lem fd now (clear_fd fd cs) ds filled in
      rw (add_client_filled now fd cs ds filled) (
        ground (
          arith,
          filled,
          h.size,
          self,
          fill_slot-none fd now (clear_fd fd cs),
          length-clear_fd fd cs,
          client_count-clear_fd fd cs,
          client_count-bound (clear_fd fd cs),
          find_client_by_fd_iff fd cs,
          find_client_by_fd_iff fd ds,
        ),
        ground (arith, self, find_client_by_fd_iff fd ds),
        λ q ne. ground (
          arith,
          find_client_by_fd_iff q cs,
          find_client_by_fd_iff q ds,
          others q ne,
          count_fd-clear_fd_other fd q cs ne,
        ),
      )
]
