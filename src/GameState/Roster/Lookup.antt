-- ===== src/GameState/Roster/Lookup.antt =====
-- The player name table (esp32/shared/src/game_state.cpp) as a finite map of bounded size.
use native.Mathlib.Numerals.{add-one}
use ray_z.EspNow.Peers.{known}
use ray_z.GameState.Defs.{Vars}
use ray_z.GameState.Roster.{find_name, rename, get_player_count, get_player_name, set_player_name}
use ray_z.Prelude.{
  Bytes, List, Option-cases, [], arith, copy_str, if◌then◌else◌, inl, inr, length, none, refl, set,
  some, suc, zero, ℕ, ◌<◌, ◌==◌, ◌∷◌, ◌≡◌, ◌≤◌, Option, length-set, ◌≢◌, ◌⊎◌,
}
use ray_z.Protocol.{PlayerEntry, max_player_entries, player_name_len}

-- The array has its fixed length, and the count fits it.
pub record IsRoster (g : Vars) : Type 0 where
  pub storage : length g.players ≡ max_player_entries
  pub fits : g.player_count ≤ max_player_entries

module _ (player_id : ℕ) (name : Bytes) where
  -- A renamed table answers with the new name for the identifier, and as before for others.
  find_name-rename :
      (n : ℕ) (ps qs : List PlayerEntry) (q : ℕ)
      → rename n ps player_id name ≡ some qs
      → find_name n qs q
        ≡ (if q == player_id then some (copy_str player_name_len name) else find_name n ps q)
  unfolding find_name rename
  find_name-rename zero ps qs q h = cc
  find_name-rename (suc n) [] qs q h = cc
  find_name-rename (suc n) (e ∷ ps) qs q h = elim (Option-cases (rename n ps player_id name)) [
    | inl missing ↦ ground arith
    | inr (rs, found) ↦ ground (arith, find_name-rename n ps rs q found)
  ]

  rename-none :
      (n : ℕ) (ps : List PlayerEntry)
      → rename n ps player_id name ≡ none
      → find_name n ps player_id ≡ none
  unfolding find_name rename
  rename-none zero ps h = refl
  rename-none (suc n) [] h = refl
  rename-none (suc n) (e ∷ ps) h = elim (Option-cases (rename n ps player_id name)) [
    | inl missing ↦ ground (arith, rename-none n ps missing)
    | inr (rs, found) ↦ ground arith
  ]

  rename-some :
      (n : ℕ) (ps qs : List PlayerEntry)
      → rename n ps player_id name ≡ some qs
      → find_name n ps player_id ≢ none
  unfolding find_name rename
  rename-some zero ps qs h k = cc
  rename-some (suc n) [] qs h k = cc
  rename-some (suc n) (e ∷ ps) qs h k = elim (Option-cases (rename n ps player_id name)) [
    | inl missing ↦ ground arith
    | inr (rs, found) ↦ ground (arith, rename-some n ps rs found)
  ]

  length-rename :
      (n : ℕ) (ps qs : List PlayerEntry)
      → rename n ps player_id name ≡ some qs
      → length qs ≡ length ps
  unfolding rename
  length-rename zero ps qs h = cc
  length-rename (suc n) [] qs h = cc
  length-rename (suc n) (e ∷ ps) qs h = elim (Option-cases (rename n ps player_id name)) [
    | inl missing ↦ ground arith
    | inr (rs, found) ↦ ground (arith, length-rename n ps rs found)
  ]

-- An entry written just past the others is found if none of them has the identifier.
find_name-append :
    (n : ℕ) (ps : List PlayerEntry) (e : PlayerEntry) (q : ℕ)
    → n < length ps
    → find_name n ps e.player_id ≡ none
    → find_name (suc n) (set ps n e) q
      ≡ (if q == e.player_id then some e.name else find_name n ps q)
unfolding find_name
find_name-append zero [] e q h k = absurd (omega arith)
find_name-append zero (x ∷ ps) e q h k = ground arith
find_name-append (suc n) [] e q h k = absurd (omega arith)
find_name-append (suc n) (x ∷ ps) e q h k = ground (arith, find_name-append n ps e q (omega arith))

-- Setting a name keeps the table in its bounds, and adds an entry only for a new player.
set_player_name-IsRoster :
    (player_id : ℕ) (name : Option Bytes) (g : Vars)
    → IsRoster g
    → IsRoster (set_player_name player_id name g)
unfolding set_player_name
set_player_name-IsRoster player_id none g v = v
set_player_name-IsRoster player_id (some name) g v =
    elim (Option-cases (rename g.player_count g.players player_id name)) [
      | inl new ↦ ground (
        arith,
        length-set g.players g.player_count
            (record { player_id = player_id; name = copy_str player_name_len name }),
      )
      | inr (qs, known) ↦
          ground (arith, length-rename player_id name g.player_count g.players qs known)
    ]

-- On a consistent table that knows the player or has room, setting a name makes the table answer
-- with it, cut to 15 bytes, for that player, and as before for every other.
pub get-set_player_name :
    (player_id q : ℕ) (name : Bytes) (g : Vars)
    → IsRoster g
    → (get_player_name player_id g ≢ none) ⊎ (get_player_count g < max_player_entries)
    → get_player_name q (set_player_name player_id (some name) g)
      ≡ (if q == player_id then some (copy_str player_name_len name) else get_player_name q g)
unfolding get_player_name set_player_name get_player_count
get-set_player_name player_id q name g v room =
    elim (Option-cases (rename g.player_count g.players player_id name)) [
      | inl new ↦
          let absent = rename-none player_id name g.player_count g.players new in
          ground (
            arith,
            add-one g.player_count,
            find_name-append g.player_count g.players
                (record { player_id = player_id; name = copy_str player_name_len name }) q,
          )
      | inr (qs, known) ↦
          ground (arith, find_name-rename player_id name g.player_count g.players qs q known)
    ]

-- A full table takes no new player: nothing changes.
pub set_player_name_full :
    (player_id : ℕ) (name : Bytes) (g : Vars)
    → get_player_name player_id g ≡ none
    → get_player_count g ≡ max_player_entries
    → set_player_name player_id (some name) g ≡ g
unfolding get_player_name set_player_name get_player_count
set_player_name_full player_id name g absent full =
    elim (Option-cases (rename g.player_count g.players player_id name)) [
      | inl new ↦ ground arith
      | inr (qs, known) ↦
          absurd (rename-some player_id name g.player_count g.players qs known absent)
    ]
