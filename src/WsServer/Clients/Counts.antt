-- ===== src/WsServer/Clients/Counts.antt =====
-- How the operations on the client table change the number of entries of a socket
-- (esp32/shared/src/ws_server.cpp).
use mathlib.Core.Option
use ray_z.Prelude.{
  Bool, Bool-cases, List, Option-cases, [], ap, arith, false, if◌then◌else◌, inl, inr, length, refl,
  some, suc, true, ℕ, ◌&&◌, ◌-◌, ◌∷◌, ◌≡◌, ◌≢◌, ◌≤◌, Option, none, not, set,
}
use ray_z.WsServer.Clients.{
  WsClient, cleanup_stale, clear_fd, is_fd, touch, add_client, find_client_slot,
}

-- How many active entries a socket has.
abbrev pub count_fd : ℕ → List WsClient → ℕ
count_fd fd [] = 0
count_fd fd (c ∷ cs) =
    let rest = count_fd fd cs in if c.active && is_fd fd c.fd then suc rest else rest

pub length-clear_fd : (fd : ℕ) (cs : List WsClient) → length (clear_fd fd cs) ≡ length cs
unfolding clear_fd
length-clear_fd fd [] = refl
length-clear_fd fd (c ∷ cs) = ground (arith, length-clear_fd fd cs)

pub count_fd-clear_fd_self :
    (fd : ℕ) (cs : List WsClient) → count_fd fd (clear_fd fd cs) ≡ count_fd fd cs - 1
unfolding clear_fd
count_fd-clear_fd_self fd [] = omega arith
count_fd-clear_fd_self fd (c ∷ cs) = elim (Bool-cases (c.active && is_fd fd c.fd)) [
  | inl entry ↦ rw entry (omega arith)
  | inr other ↦ rw (other, other) (count_fd-clear_fd_self fd cs)
]

-- An entry belongs to one socket.
entry_unique :
    (fd q : ℕ) (c : WsClient)
    → (c.active && is_fd fd c.fd) ≡ true
    → q ≢ fd
    → (c.active && is_fd q c.fd) ≡ false
entry_unique fd q c h ne = elim (Option-cases c.fd) [
  | inl free ↦ ground arith
  | inr (x, taken) ↦ ground arith
]

pub count_fd-clear_fd_other :
    (fd q : ℕ) (cs : List WsClient) → q ≢ fd → count_fd q (clear_fd fd cs) ≡ count_fd q cs
unfolding clear_fd
count_fd-clear_fd_other fd q [] ne = refl
count_fd-clear_fd_other fd q (c ∷ cs) ne = elim (Bool-cases (c.active && is_fd fd c.fd)) [
  | inl entry ↦ rw (entry, entry_unique fd q c entry ne) refl
  | inr other ↦ rw (other, count_fd-clear_fd_other fd q cs ne) refl
]

-- The table with its first free slot taken, if there is one.
unfoldable pub fill_slot : ℕ → ℕ → List WsClient → Option (List WsClient)
fill_slot fd now [] = none
fill_slot fd now (c ∷ cs) =
    let rest = Option.map (λ l. c ∷ l) (fill_slot fd now cs) in
    if not c.active
    then some (record { fd = some fd; active = true; last_activity_ms = now } ∷ cs)
    else rest

find_client_slot_lem :
    (fd now : ℕ) (cs : List WsClient)
    → fill_slot fd now cs
      ≡ Option.map
          (λ i. set cs i (record { fd = some fd; active = true; last_activity_ms = now }))
          (find_client_slot cs)
unfolding fill_slot find_client_slot
find_client_slot_lem fd now [] = refl
find_client_slot_lem fd now (c ∷ cs) = elim (Option-cases (find_client_slot cs)) [
  | inl crowded ↦ ground (arith, crowded, find_client_slot_lem fd now cs)
  | inr (i, found) ↦ ground (arith, found, find_client_slot_lem fd now cs)
]

pub add_client_crowded :
    (now fd : ℕ) (cs : List WsClient)
    → fill_slot fd now (clear_fd fd cs) ≡ none
    → add_client now fd cs ≡ (false, clear_fd fd cs)
unfolding add_client
add_client_crowded now fd cs h = elim (Option-cases (find_client_slot (clear_fd fd cs))) [
  | inl crowded ↦ ground (arith, crowded)
  | inr (i, found) ↦ absurd (ground (arith, h, found, find_client_slot_lem fd now (clear_fd fd cs)))
]

pub add_client_filled :
    (now fd : ℕ) (cs ds : List WsClient)
    → fill_slot fd now (clear_fd fd cs) ≡ some ds
    → add_client now fd cs ≡ (true, ds)
unfolding add_client
add_client_filled now fd cs ds h = elim (Option-cases (find_client_slot (clear_fd fd cs))) [
  | inl crowded ↦ absurd (ground (arith, h, crowded, find_client_slot_lem fd now (clear_fd fd cs)))
  | inr (i, found) ↦ ground (arith, found, h, find_client_slot_lem fd now (clear_fd fd cs))
]

pub fill_slot_lem :
    (fd now : ℕ) (cs ds : List WsClient)
    → fill_slot fd now cs ≡ some ds
    → (length ds ≡ length cs)
      × (count_fd fd ds ≡ suc (count_fd fd cs))
      × ((q : ℕ) → q ≢ fd → count_fd q ds ≡ count_fd q cs)
unfolding fill_slot
fill_slot_lem fd now [] ds h = absurd (cc)
fill_slot_lem fd now (c ∷ cs) ds h = elim (Bool-cases c.active) [
  | inr free ↦
      let e : record { fd = some fd; active = true; last_activity_ms = now } ∷ cs ≡ ds =
        ground (arith, free, h) in
      rw (← e) (refl, ground (arith, free), λ q ne. ground (arith, free, ne))
  | inl taken ↦ elim (Option-cases (fill_slot fd now cs)) [
    | inl none_left ↦ absurd (ground (arith, taken, none_left, h))
    | inr (es, filled) ↦
        let e : c ∷ es ≡ ds = ground (arith, taken, filled, h) in
        let rest = fill_slot_lem fd now cs es filled in
        rw (← e) (ap suc rest.0, ground (arith, rest.1), λ q ne. ground (arith, rest.2 q ne))
  ]
]

pub length-cleanup_stale :
    (now : ℕ) (healthy : ℕ → Bool) (cs : List WsClient)
    → length (cleanup_stale now healthy cs) ≡ length cs
unfolding cleanup_stale
length-cleanup_stale now healthy [] = refl
length-cleanup_stale now healthy (c ∷ cs) = ap suc (length-cleanup_stale now healthy cs)

pub count_fd-cleanup_stale :
    (now : ℕ) (healthy : ℕ → Bool) (q : ℕ) (cs : List WsClient)
    → count_fd q (cleanup_stale now healthy cs) ≤ count_fd q cs
unfolding cleanup_stale
count_fd-cleanup_stale now healthy q [] = omega arith
count_fd-cleanup_stale now healthy q (c ∷ cs) =
    ground (arith, count_fd-cleanup_stale now healthy q cs)

pub count_fd-touch :
    (now fd q : ℕ) (cs : List WsClient)
    → (count_fd q (touch now fd cs) ≡ count_fd q cs) × (length (touch now fd cs) ≡ length cs)
unfolding touch
count_fd-touch now fd q [] = (refl, refl)
count_fd-touch now fd q (c ∷ cs) = ground (arith, count_fd-touch now fd q cs)
