-- ===== src/GameState/Roster.antt =====
-- The player name table of esp32/shared/src/game_state.cpp.
pub mod Lookup
use mathlib.Core.Option
use ray_z.GameState.Defs.{Vars, zero_player}
use ray_z.Prelude.{
  Bytes, List, Option, [], copy_str, if◌then◌else◌, ltb, none, replicate, set, some, suc, zero, ℕ,
  ◌+◌, ◌==◌, ◌∷◌,
}
use ray_z.Protocol.{PlayerEntry, max_player_entries, player_name_len}

unfoldable pub clear_player_names : Vars → Vars
clear_player_names g = record g {
  player_count = 0;
  players = replicate max_player_entries zero_player;
}

-- The search loops: `n` entries are left to look at. The entries past the count, and a list that
-- is shorter than it, are not looked at.
unfoldable pub find_name : ℕ → List PlayerEntry → ℕ → Option Bytes
find_name zero ps player_id = none
find_name (suc n) [] player_id = none
find_name (suc n) (e ∷ ps) player_id =
    if e.player_id == player_id then some e.name else find_name n ps player_id

-- `none` if no entry has the identifier.
unfoldable pub rename : ℕ → List PlayerEntry → ℕ → Bytes → Option (List PlayerEntry)
rename zero ps player_id name = none
rename (suc n) [] player_id name = none
rename (suc n) (e ∷ ps) player_id name =
    if e.player_id == player_id
    then some (record e { name = copy_str player_name_len name } ∷ ps)
    else Option.map (λ rest. e ∷ rest) (rename n ps player_id name)

-- `name` may be NULL.
unfoldable pub set_player_name : ℕ → Option Bytes → Vars → Vars
unfolding rename
set_player_name player_id none g = g
set_player_name player_id (some name) g = elim (rename g.player_count g.players player_id name) [
  | some ps ↦ record g { players = ps }
  | none ↦
      if ltb g.player_count max_player_entries
      then record g {
        players = set g.players g.player_count entry;
        player_count = g.player_count + 1;
      }
      else g
]
  where
    entry : PlayerEntry
    entry = record { player_id = player_id; name = copy_str player_name_len name }

-- `none` is NULL.
unfoldable pub get_player_name : ℕ → Vars → Option Bytes
unfolding find_name
get_player_name player_id g = find_name g.player_count g.players player_id

unfoldable pub get_player_count : Vars → ℕ
get_player_count g = g.player_count
