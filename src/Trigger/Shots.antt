-- ===== src/Trigger/Shots.antt =====
-- The shots that the trigger makes (esp32/weapon/src/tasks/control_task.cpp).
use ray_z.Events.{laser}
use ray_z.GameState.Defs.{Vars}
use ray_z.GameState.Runtime.{is_respawning, record_shot, next_seq_id}
use ray_z.Laser.{create_laser_message, validate_laser_message}
use ray_z.Laser.Codec.{validate-create}
use ray_z.Prelude.{
  Bool, List, [], ap₂, arith, false, get_elem?, if◌then◌else◌, not, some, suc, true, u16, u32, ℕ,
  ◌%◌, ◌&&◌, ◌+◌, ◌<◌, ◌==◌, ◌^◌, ◌↔◌, ◌∙◌, ◌∷◌, ◌≡◌, ◌≢◌, ◌≤◌,
}
use ray_z.Protocol.{max_device_id, max_player_id}
use ray_z.Trigger.{Weapon, control_round, fire}
use ray_z.WsServer.Messages.{broadcast_shot}

-- Rounds of the task: the trigger, the answer of `ws_server_is_connected` and the timer's
-- readings.
abbrev pub control_run : List (Bool × Bool × ℕ × ℕ) → Weapon → Weapon
control_run [] s = s
control_run ((pressed, connected, t, u) ∷ more) s =
    control_run more (control_round pressed connected t u s).1

-- How often the trigger goes down, `was` being its level before.
abbrev pub count_presses : Bool → List (Bool × Bool × ℕ × ℕ) → ℕ
count_presses was [] = 0
count_presses was ((pressed, connected, t, u) ∷ more) =
    let rest = count_presses pressed more in if pressed && not was then suc rest else rest

-- A player who is up and has ammunition.
abbrev pub HasAmmo : Vars → Type 0
HasAmmo g =
    (g.state.respawning ≡ false)
    × ((not g.game_cfg.unlimited_ammo && (g.game_cfg.max_ammo == 0)) ≡ false)

control_round_lem :
    (pressed connected : Bool) (t u : ℕ) (s : Weapon)
    → HasAmmo s.game
    → let next = control_round pressed connected t u s in
      (next.1.was_pressed ≡ pressed)
      × HasAmmo next.1.game
      × (next.1.message_count
          ≡ (if pressed && not s.was_pressed then u16 (s.message_count + 1) else s.message_count))
      × (next.1.game.state.shots_fired ≡ (
          if pressed && not s.was_pressed
          then u32 (s.game.state.shots_fired + 1)
          else s.game.state.shots_fired))
unfolding control_round fire record_shot is_respawning broadcast_shot next_seq_id
control_round_lem pressed connected t u s (up, ammo) = ground (arith, up, ammo)

-- While the player is up and has ammunition, and from counters within their widths, any number of
-- rounds adds to the two shot counters the number of times that the trigger goes down, modulo 2^32
-- and 2^16. This holds in a game that is stopped or paused too: the task looks at neither.
pub control_run_lem :
    (rounds : List (Bool × Bool × ℕ × ℕ)) (s : Weapon)
    → HasAmmo s.game
    → s.game.state.shots_fired < 2 ^ 32
    → s.message_count < 2 ^ 16
    → ((control_run rounds s).game.state.shots_fired
        ≡ u32 (s.game.state.shots_fired + count_presses s.was_pressed rounds))
      × ((control_run rounds s).message_count
          ≡ u16 (s.message_count + count_presses s.was_pressed rounds))
control_run_lem [] s ok shots count = (omega arith, omega arith)
control_run_lem ((pressed, connected, t, u) ∷ more) s ok shots count =
    let round = control_round_lem pressed connected t u s ok in
    let rest =
      control_run_lem more (control_round pressed connected t u s).1 round.1 (ground (arith, round))
        (ground (arith, round)) in
    ground (arith, round, rest)

in_range :
    (p d : ℕ)
    → p ≤ max_player_id
    → d ≤ max_device_id
    → validate_laser_message (create_laser_message p d) ≡ some (p, d)
in_range p d p_le d_le =
    validate-create p d
    ∙ ap₂ (λ x y. some (x, y)) {x = p % 32} {y = p} {u = d % 64} {v = d} (omega arith) (omega arith)

-- On a weapon whose identifiers are in range, a round fires exactly when the player is up, has
-- ammunition and has just pressed the trigger, whether the game is running, paused or stopped, and
-- then puts a word on the laser that validates to the player and the device of the weapon.
pub control_round_iff :
    (pressed connected : Bool) (t u : ℕ) (s : Weapon)
    → s.game.config.player_id ≤ max_player_id
    → s.game.config.device_id ≤ max_device_id
    → let acts = (control_round pressed connected t u s).0 in
      ((acts ≢ []) ↔ (HasAmmo s.game × (pressed ≡ true) × (s.was_pressed ≡ false)))
      × ((acts ≢ [])
          → (w : ℕ) × (get_elem? acts 1 ≡ some (laser w))
            × (validate_laser_message w ≡ some (s.game.config.player_id, s.game.config.device_id)))
unfolding control_round fire is_respawning broadcast_shot
control_round_iff pressed connected t u s p_le d_le = (
  ground arith,
  λ acts. (
    create_laser_message s.game.config.player_id s.game.config.device_id,
    ground (arith, acts),
    in_range s.game.config.player_id s.game.config.device_id p_le d_le,
  ),
)
