-- ===== src/GameState/Ids/Range.antt =====
-- The ranges of the identifiers (esp32/shared/src/game_state.cpp).
use ray_z.GameState.Defs.{Vars}
use ray_z.GameState.Ids.{generate_ids}
use ray_z.Prelude.{arith, ℕ, ◌≡◌, ◌≤◌}
use ray_z.Protocol.{max_device_id, max_player_id}

-- Generated identifiers are never 0, fit the 6 and 5 bits of a laser message, and identifiers
-- that are in range already are kept.
generate_ids_in_range :
    (random : ℕ) (g : Vars)
    → let c = (generate_ids random g).config in
      (1 ≤ c.device_id)
      × (c.device_id ≤ max_device_id)
      × (1 ≤ c.player_id)
      × (c.player_id ≤ max_player_id)
      × (1 ≤ g.config.device_id
          → g.config.device_id ≤ max_device_id
          → c.device_id ≡ g.config.device_id)
      × (1 ≤ g.config.player_id
          → g.config.player_id ≤ max_player_id
          → c.player_id ≡ g.config.player_id)
unfolding generate_ids
generate_ids_in_range random g = (
  ground arith,
  ground arith,
  ground arith,
  ground arith,
  λ a b. ground arith,
  λ a b. ground arith,
)
