-- ===== src/WsServer/Dispatch/Updates.antt =====
-- A configuration message leaves the phase of the game alone (esp32/shared/src/ws_server.cpp).
use ray_z.EspNow.Peers.{known}
use ray_z.GameState.Config.{load_default_game_config}
use ray_z.GameState.Control.Phase.{IsPhase}
use ray_z.GameState.Defs.{Vars}
use ray_z.GameState.Ids.{save_ids}
use ray_z.GameState.Roster.{clear_player_names, rename, set_player_name}
use ray_z.GameState.Runtime.{next_seq_id, update_heartbeat}
use ray_z.NvsStore.{Nvs}
use ray_z.Prelude.{
  Bool, Bool-cases, Bytes, List, Option, Option-cases, String, [], arith, codes, if◌then◌else◌, inl,
  inr, none, refl, some, ℕ, ◌∙◌, ◌∷◌, ◌≡◌,
}
use ray_z.Prelude.Int.{to_word, ℤ}
use ray_z.WsServer.Commands.{
  CJson, Times, broadcast_state, device_updates, game_updates, run_updates, with_item, with_string,
  with_value,
}
use ray_z.WsServer.Dispatch.{
  handle_config_update, load_player, load_players, reset_if_asked, update_players,
}
use ray_z.WsServer.Messages.{create_status_json, send_status}

-- The fields that make up the phase.
abbrev pub phase : Vars → Bool × Bool × Bool
phase g = (g.state.game_over, g.state.game_running, g.state.game_paused)

pub IsPhase-phase : (g h : Vars) → IsPhase g → phase h ≡ phase g → IsPhase h
IsPhase-phase g h p same = ground (arith, same)

set_player_name-phase :
    (id : ℕ) (name : Option Bytes) (g : Vars) → phase (set_player_name id name g) ≡ phase g
unfolding set_player_name
set_player_name-phase id none g = refl
set_player_name-phase id (some name) g =
    elim (Option-cases (rename g.player_count g.players id name)) [
      | inl new ↦ ground arith
      | inr (qs, known) ↦ ground arith
    ]

-- Every one of the assignments leaves the phase alone.
abbrev AllKeep : List (Vars → Vars) → Type 0
AllKeep [] = Unit
AllKeep (f ∷ fs) = ((g : Vars) → phase (f g) ≡ phase g) × AllKeep fs

run_updates-phase :
    (fs : List (Vars → Vars)) → AllKeep fs → (g : Vars) → phase (run_updates fs g) ≡ phase g
unfolding run_updates
run_updates-phase [] keep g = refl
run_updates-phase (f ∷ fs) keep g = run_updates-phase fs keep.1 (f g) ∙ keep.0 g

pub broadcast_state-phase : (ts : Times) (g : Vars) → phase (broadcast_state ts g).1 ≡ phase g
unfolding broadcast_state send_status create_status_json next_seq_id update_heartbeat
broadcast_state-phase ts g = refl

module _ (json : CJson) where
  with_item-phase :
      (root : json.Item) (key : String) (f : json.Item → Vars → Vars) (g : Vars)
      → ((i : json.Item) (h : Vars) → phase (f i h) ≡ phase h)
      → phase (with_item json root key f g) ≡ phase g
  unfolding with_item
  with_item-phase root key f g h = elim (Option-cases (json.get_object_item root (codes key))) [
    | inl missing ↦ ground (arith, missing)
    | inr (i, found) ↦ ground (arith, found, h i g)
  ]

  with_value-phase :
      (root : json.Item) (key : String) (f : ℤ → Vars → Vars) (g : Vars)
      → ((n : ℤ) (h : Vars) → phase (f n h) ≡ phase h)
      → phase (with_value json root key f g) ≡ phase g
  unfolding with_value
  with_value-phase root key f g h =
      with_item-phase root key (λ item g. if json.is_null item then g else f (json.valueint item) g)
        g
        (λ i k. elim (Bool-cases (json.is_null i)) [
          | inl null ↦ ground (arith, null)
          | inr there ↦ ground (arith, there, h (json.valueint i) k)
        ])

  with_string-phase :
      (root : json.Item) (key : String) (f : Bytes → Vars → Vars) (g : Vars)
      → ((s : Bytes) (h : Vars) → phase (f s h) ≡ phase h)
      → phase (with_string json root key f g) ≡ phase g
  unfolding with_string
  with_string-phase root key f g h = with_item-phase root key _ g (λ i k.
      elim (Bool-cases (json.is_string i)) [
        | inr other ↦ ground (arith, other)
        | inl is_text ↦ elim (Option-cases (json.valuestring i)) [
          | inl missing ↦ ground (arith, is_text, missing)
          | inr (s, found) ↦ ground (arith, is_text, found, h s k)
        ]
      ])

  device_updates-Keep : (root : json.Item) → AllKeep (device_updates json root)
  unfolding device_updates
  device_updates-Keep root = (
    λ g. with_string-phase root "device_name" _ g (λ s h. refl),
    (
      λ g. with_value-phase root "device_id" _ g (λ n h. refl),
      (
        λ g. with_value-phase root "player_id" _ g (λ n h. refl),
        (
          λ g. with_value-phase root "team_id" _ g (λ n h. refl),
          (λ g. with_value-phase root "color_rgb" _ g (λ n h. refl), tt),
        ),
      ),
    ),
  )

  game_updates-Keep : (root : json.Item) → AllKeep (game_updates json root)
  unfolding game_updates
  game_updates-Keep root = (
    λ g. with_string-phase root "win_type" _ g (λ s h. refl),
    (
      λ g. with_item-phase root "target_score" _ g (λ i h. refl),
      (
        λ g. with_item-phase root "game_duration_s" _ g (λ i h. refl),
        (
          λ g. with_item-phase root "max_hearts" _ g (λ i h. refl),
          (
            λ g. with_item-phase root "spawn_hearts" _ g (λ i h. refl),
            (
              λ g. with_item-phase root "respawn_time_s" _ g (λ i h. refl),
              (
                λ g. with_item-phase root "damage_in" _ g (λ i h. refl),
                (
                  λ g. with_item-phase root "damage_out" _ g (λ i h. refl),
                  (
                    λ g. with_item-phase root "friendly_fire" _ g (λ i h. refl),
                    (
                      λ g. with_item-phase root "max_ammo" _ g (λ i h. refl),
                      (
                        λ g. with_item-phase root "reload_time_ms" _ g (λ i h. refl),
                        (λ g. with_item-phase root "enable_ammo" _ g (λ i h. refl), tt),
                      ),
                    ),
                  ),
                ),
              ),
            ),
          ),
        ),
      ),
    ),
  )

  load_player-phase :
      (g : Vars) (pid pname : Option json.Item) → phase (load_player json g pid pname) ≡ phase g
  unfolding load_player
  load_player-phase g none pname = refl
  load_player-phase g (some pid) none = refl
  load_player-phase g (some pid) (some pname) =
      ground
        (arith, set_player_name-phase (to_word 8 (json.valueint pid)) (json.valuestring pname) g)

  load_players-phase : (ps : List json.Item) (g : Vars) → phase (load_players json ps g) ≡ phase g
  unfolding load_players load_player
  load_players-phase [] g = refl
  load_players-phase (p ∷ ps) g =
      load_players-phase ps (
        load_player json g (json.get_object_item p (codes "id"))
          (json.get_object_item p (codes "name")))
      ∙ load_player-phase g (json.get_object_item p (codes "id"))
          (json.get_object_item p (codes "name"))

  update_players-phase :
      (root : json.Item) (g : Vars) → phase (update_players json root g) ≡ phase g
  unfolding update_players clear_player_names
  update_players-phase root g = elim (Option-cases (json.get_object_item root (codes "players"))) [
    | inl missing ↦ ground (arith, missing)
    | inr (players, found) ↦
        ground (arith, found, load_players-phase (json.elements players) (clear_player_names g))
  ]

  reset_if_asked-phase :
      (root : json.Item) (g : Vars) → phase (reset_if_asked json root g) ≡ phase g
  unfolding reset_if_asked load_default_game_config
  reset_if_asked-phase root g =
      elim (Option-cases (json.get_object_item root (codes "reset_to_defaults"))) [
        | inl missing ↦ ground (arith, missing)
        | inr (item, found) ↦ ground (arith, found)
      ]

  module _ (nvs : Nvs) where
    save_ids-phase : (f : nvs.Flash) (g : Vars) → phase (save_ids nvs f g).2 ≡ phase g
    unfolding save_ids
    save_ids-phase f g = refl

    pub handle_config_update-phase :
        (ts : Times) (root : json.Item) (f : nvs.Flash) (g : Vars)
        → phase (handle_config_update json nvs ts root f g).2 ≡ phase g
    unfolding handle_config_update
    handle_config_update-phase ts root f g =
        let asked = reset_if_asked json root g in
        let device = run_updates (device_updates json root) asked in
        let game = run_updates (game_updates json root) device in
        let updated = update_players json root game in
        broadcast_state-phase ts (save_ids nvs f updated).2
        ∙ save_ids-phase f updated
        ∙ update_players-phase root game
        ∙ run_updates-phase (game_updates json root) (game_updates-Keep root) device
        ∙ run_updates-phase (device_updates json root) (device_updates-Keep root) asked
        ∙ reset_if_asked-phase root g
