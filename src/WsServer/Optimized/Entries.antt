-- ===== src/WsServer/Optimized/Entries.antt =====
-- Single operations of the two implementations of the client table, esp32/shared/src/
-- ws_server_optimized.cpp and ws_server.cpp, agree.
use ray_z.Prelude.{
  Bool, Bool-cases, List, [], ap, arith, inl, inr, none, refl, set, suc, true, zero, ℕ, ◌&&◌, ◌∷◌,
  ◌≡◌, ◌≢◌, Option-cases, some, sym, ◌∙◌,
}
use ray_z.WsServer.Clients.{
  WsClient, add_client, clear_fd, find_client_by_fd, find_client_slot, is_fd, remove_client, touch,
}
use ray_z.WsServer.Clients.Counts.{count_fd}
use ray_z.WsServer.Clients.Lookup.{find_client_by_fd_iff}
use ray_z.WsServer.Optimized.{
  OptClient, add_client_optimized, find_client_by_fd_optimized, find_client_slot_optimized,
  remove_stale_fd_unsafe, update_client_activity, remove_client_optimized,
}

abbrev pub entries_of : List OptClient → List WsClient
entries_of [] = []
entries_of (c ∷ cs) = c.entry ∷ entries_of cs

-- An active client has a socket.
abbrev pub AreBound : List WsClient → Type 0
AreBound [] = Unit {0}
AreBound (c ∷ cs) = (c.active ≡ true → c.fd ≢ none) × AreBound cs

find_client_slot_same :
    (cs : List OptClient) → find_client_slot_optimized cs ≡ find_client_slot (entries_of cs)
unfolding find_client_slot_optimized find_client_slot
find_client_slot_same [] = refl
find_client_slot_same (c ∷ cs) = rw (find_client_slot_same cs) refl

pub find_client_by_fd_same :
    (fd : ℕ) (cs : List OptClient)
    → find_client_by_fd_optimized (some fd) cs ≡ find_client_by_fd fd (entries_of cs)
unfolding find_client_by_fd_optimized find_client_by_fd
find_client_by_fd_same fd [] = refl
find_client_by_fd_same fd (c ∷ cs) = rw (find_client_by_fd_same fd cs) refl

clear_fd_same :
    (fd : ℕ) (cs : List OptClient)
    → entries_of (remove_stale_fd_unsafe (some fd) cs) ≡ clear_fd fd (entries_of cs)
unfolding remove_stale_fd_unsafe clear_fd
clear_fd_same fd [] = refl
clear_fd_same fd (c ∷ cs) = elim (Bool-cases (c.entry.active && is_fd fd c.entry.fd)) [
  | inl mine ↦ rw mine refl
  | inr other ↦ rw (other, clear_fd_same fd cs) refl
]

entries_of-set :
    (cs : List OptClient) (i : ℕ) (c : OptClient)
    → entries_of (set cs i c) ≡ set (entries_of cs) i c.entry
entries_of-set [] i c = refl
entries_of-set (d ∷ cs) zero c = refl
entries_of-set (d ∷ cs) (suc i) c = ap (λ t. d.entry ∷ t) (entries_of-set cs i c)

slot_same :
    (fd : ℕ) (cs : List OptClient)
    → find_client_slot (clear_fd fd (entries_of cs))
      ≡ find_client_slot_optimized (remove_stale_fd_unsafe (some fd) cs)
slot_same fd cs =
    ap find_client_slot (sym (clear_fd_same fd cs))
    ∙ sym (find_client_slot_same (remove_stale_fd_unsafe (some fd) cs))

pub add_client_same :
    (now fd : ℕ) (binary : Bool) (cs : List OptClient)
    → entries_of (add_client_optimized now fd binary cs).1 ≡ (add_client now fd (entries_of cs)).1
unfolding add_client_optimized add_client
add_client_same now fd binary cs =
    let cleared = remove_stale_fd_unsafe (some fd) cs in
    elim (Option-cases (find_client_slot_optimized cleared)) [
      | inl crowded ↦ ground (arith, crowded, slot_same fd cs, clear_fd_same fd cs)
      | inr (i, free) ↦ ground (
        arith,
        free,
        slot_same fd cs,
        clear_fd_same fd cs,
        entries_of-set cleared i (record {
          entry = record { fd = some fd; active = true; last_activity_ms = now };
          supports_binary = binary;
        }),
      )
    ]

pub touch_same :
    (now fd : ℕ) (cs : List OptClient)
    → entries_of (update_client_activity now fd cs) ≡ touch now fd (entries_of cs)
unfolding update_client_activity touch
touch_same now fd [] = refl
touch_same now fd (c ∷ cs) = elim (Bool-cases (c.entry.active && is_fd fd c.entry.fd)) [
  | inl mine ↦ rw mine refl
  | inr other ↦ rw (other, touch_same now fd cs) refl
]

-- Nothing is cleared for a socket without an entry.
pub clear_fd_none : (fd : ℕ) (cs : List WsClient) → count_fd fd cs ≡ 0 → clear_fd fd cs ≡ cs
unfolding clear_fd
clear_fd_none fd [] h = refl
clear_fd_none fd (c ∷ cs) h = elim (Bool-cases (c.active && is_fd fd c.fd)) [
  | inl mine ↦ absurd (ground (arith, mine))
  | inr other ↦ rw other (ap (λ t. c ∷ t) (clear_fd_none fd cs (ground (arith, h, other))))
]

-- Removing a client is clearing its entry, if it has one.
pub remove_client_clears : (fd : ℕ) (cs : List WsClient) → (remove_client fd cs).1 ≡ clear_fd fd cs
unfolding remove_client
remove_client_clears fd cs = elim (Option-cases (find_client_by_fd fd cs)) [
  | inl missing ↦
      let gone : clear_fd fd cs ≡ cs =
        clear_fd_none fd cs (ground (arith, missing, find_client_by_fd_iff fd cs)) in
      ground (arith, missing, gone)
  | inr (slot, found) ↦ ground (arith, found)
]

pub remove_client_same :
    (fd : ℕ) (cs : List OptClient)
    → entries_of (remove_client_optimized (some fd) cs).1 ≡ clear_fd fd (entries_of cs)
unfolding remove_client_optimized
remove_client_same fd cs = elim (Option-cases (find_client_by_fd_optimized (some fd) cs)) [
  | inl missing ↦
      let none_there : find_client_by_fd fd (entries_of cs) ≡ none =
        sym (find_client_by_fd_same fd cs) ∙ missing in
      let gone : clear_fd fd (entries_of cs) ≡ entries_of cs =
        clear_fd_none fd (entries_of cs)
          (ground (arith, none_there, find_client_by_fd_iff fd (entries_of cs))) in
      ground (arith, missing, gone)
  | inr (slot, found) ↦ ground (arith, found, clear_fd_same fd cs)
]
