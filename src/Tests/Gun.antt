-- ===== src/Tests/Gun.antt =====
-- Alice's weapon.
use ray_z.Events.{laser}
use ray_z.Hit.{hit_message}
use ray_z.Laser.{validate_laser_message}
use ray_z.Prelude.{
  [], arith, false, get_elem?, refl, some, true, u16, u32, ℕ, ◌%◌, ◌+◌, ◌↔◌, ◌∷◌, ◌≡◌, ◌≢◌, Bool,
  List,
}
use ray_z.Tests.Data.{alice, bob}
use ray_z.Trigger.{Weapon, control_round, weapon_receive}
use ray_z.Trigger.Credit.{weapon_receive-hit_message}
use ray_z.Trigger.Shots.{HasAmmo, control_round_iff, control_run, control_run_lem, count_presses}

abbrev gun : Weapon
gun = record { shot_counter = 0; was_pressed = false; message_count = 0; game = alice }

-- One press, held for two rounds.
abbrev press : List (Bool × Bool × ℕ × ℕ)
press = (true, false, 1000, 1010) ∷ (true, false, 2000, 2010) ∷ (false, false, 3000, 3010) ∷ []

control_run_lem_example :
    ((control_run press gun).game.state.shots_fired ≡ u32 (0 + count_presses false press))
    × ((control_run press gun).message_count ≡ u16 (0 + count_presses false press))
control_run_lem_example = control_run_lem press gun (refl, refl) (omega arith) (omega arith)

control_round_iff_example :
    (((control_round true false 1000 1010 gun).0 ≢ [])
      ↔ (HasAmmo alice × (◌≡◌ {A = Bool} true true) × (◌≡◌ {A = Bool} false false)))
    × (((control_round true false 1000 1010 gun).0 ≢ [])
        → (w : ℕ) × (get_elem? (control_round true false 1000 1010 gun).0 1 ≡ some (laser w))
          × (validate_laser_message w ≡ some (5, 9)))
control_round_iff_example = control_round_iff true false 1000 1010 gun (omega arith) (omega arith)

weapon_receive-hit_message_example :
    (◌≡◌ {A = ℕ} 9 9
      → ((weapon_receive 9 (hit_message (5 % 32) (9 % 64) 7 1000 bob) 2000 2010 alice).1.state.kills
          ≡ u32 (0 + 1))
        × ((weapon_receive 9
              (hit_message (5 % 32) (9 % 64) 7 1000 bob)
              2000
              2010
              alice).1.state.hits_landed
            ≡ u32 (0 + 1))
        × ((weapon_receive 9 (hit_message (5 % 32) (9 % 64) 7 1000 bob) 2000 2010 alice).1.config
            ≡ alice.config))
    × (◌≢◌ {A = ℕ} 9 9
        → weapon_receive 9 (hit_message (5 % 32) (9 % 64) 7 1000 bob) 2000 2010 alice ≡ ([], alice))
weapon_receive-hit_message_example =
    weapon_receive-hit_message 5 9 9 7 1000 2000 2010 alice bob (omega arith)
