-- ===== src/GameState/Runtime/Respawn.antt =====
-- Deaths, hearts and the respawn timer (`game_state_record_death`, `game_state_check_respawn`).
use ray_z.GameState.Defs.{Vars}
use ray_z.GameState.Runtime.{check_respawn, is_respawning, record_death}
use ray_z.Prelude.{arith, false, now_ms, true, u32, ℕ, ◌+◌, ◌-◌, ◌<◌, ◌^◌, ◌≡◌, ◌≤◌}

-- After a death, if the clock does not wrap before the end of the cooldown, a check before the end
-- changes nothing, and one at or after it brings the player back with all hearts and the death
-- counted.
pub respawn_after_cooldown :
    (t u : ℕ) (g : Vars)
    → now_ms t + g.game_cfg.respawn_cooldown_ms < 2 ^ 32
    → let down = record_death t g in
      (now_ms u < now_ms t + g.game_cfg.respawn_cooldown_ms → check_respawn u down ≡ (false, down))
      × (now_ms t + g.game_cfg.respawn_cooldown_ms ≤ now_ms u
          → ((check_respawn u down).0 ≡ true)
            × (is_respawning (check_respawn u down).1 ≡ false)
            × ((check_respawn u down).1.state.hearts_remaining ≡ g.game_cfg.max_hearts)
            × ((check_respawn u down).1.state.deaths ≡ u32 (g.state.deaths + 1)))
unfolding record_death check_respawn is_respawning
respawn_after_cooldown t u g h = (λ early. ground arith, λ late. ground arith)

-- Hearts never go below zero and never above what they were, and every death, whatever the mode
-- and the hearts left, puts the player into the respawn state.
pub record_death_lem :
    (t : ℕ) (g : Vars)
    → ((record_death t g).state.hearts_remaining ≡ g.state.hearts_remaining - 1)
      × (is_respawning (record_death t g) ≡ true)
unfolding record_death is_respawning
record_death_lem t g = ground arith
