-- ===== src/Hit/Strike.antt =====
-- When a received word makes a hit, and what the hit does
-- (esp32/target/src/tasks/processing_task.cpp).
use ray_z.Events.{evt_killed, evt_respawn_start, post, radio, vibrate, web}
use ray_z.GameState.Defs.{Vars}
use ray_z.GameState.Roster.{get_player_count, get_player_name}
use ray_z.GameState.Runtime.{is_respawning, record_death, next_seq_id}
use ray_z.Hit.{
  Target, accepts, confirm_word, game_task_record_hit, hit_message, processing_round, strike,
  Confirm, receive_valid,
}
use ray_z.Hit.Filter.{Arrival, IsConfirm, step}
use ray_z.Laser.{validate_laser_message}
use ray_z.Prelude.{
  [], arith, false, if◌then◌else◌, none, now_ms, some, sub32, true, u32, ℕ, ◌+◌, ◌<◌, ◌↔◌, ◌∷◌, ◌≡◌,
  ◌≢◌, Bool, ltb, refl, ==_ne,
}
use ray_z.WsServer.Messages.{atoi, broadcast_hit, hit_report}

-- The word `message` of player `player_id` counts as a hit.
pub record IsHit (a : Arrival) (s : Target) (player_id device_id : ℕ) : Type 0 where
  pub valid : validate_laser_message a.word ≡ some (player_id, device_id)
  pub alive : s.game.state.respawning ≡ false
  pub repeated : a.word ≡ s.confirm.last_valid_msg
  pub in_time : sub32 (now_ms a.clock.at_receive) s.confirm.last_valid_time < 500
  pub waiting : s.confirm.confirm_count ≡ 1
  pub other : player_id ≢ s.game.config.player_id
  pub known : a.connected ≡ true → 0 < s.game.player_count → get_player_name player_id s.game ≢ none

-- A round on a word that validates.
pub step_valid :
    (a : Arrival) (s : Target) (player_id device_id : ℕ)
    → validate_laser_message a.word ≡ some (player_id, device_id)
    → step a s ≡ receive_valid a.connected a.connected_again a.clock player_id device_id a.word s
unfolding processing_round
step_valid a s player_id device_id valid = ground (arith, valid)

accepts_iff :
    (connected : Bool) (player_id : ℕ) (g : Vars)
    → (accepts connected player_id g ≡ true)
      ↔ (connected ≡ true → 0 < g.player_count → get_player_name player_id g ≢ none)
unfolding accepts get_player_count
accepts_iff connected player_id g = ground arith

confirmed_iff :
    (now message : ℕ) (c : Confirm)
    → IsConfirm c
    → (ltb (confirm_word now message c).confirm_count 2 ≡ false)
      ↔ ((message ≡ c.last_valid_msg) × (sub32 now c.last_valid_time < 500) × (c.confirm_count ≡ 1))
unfolding confirm_word
confirmed_iff now message c h = ground arith

confirm_word_time :
    (now message : ℕ) (c : Confirm)
    → message ≡ c.last_valid_msg
    → sub32 now c.last_valid_time < 500
    → (confirm_word now message c).last_valid_time ≡ c.last_valid_time
unfolding confirm_word
confirm_word_time now message c same soon = ground arith

receive_valid_iff :
    (a : Arrival) (s : Target) (player_id device_id : ℕ)
    → ((receive_valid a.connected a.connected_again a.clock player_id device_id a.word s).0 ≢ [])
      ↔ ((s.game.state.respawning ≡ false)
          × (ltb (confirm_word (now_ms a.clock.at_receive) a.word s.confirm).confirm_count 2
              ≡ false)
          × (player_id ≢ s.game.config.player_id)
          × (accepts a.connected player_id s.game ≡ true))
unfolding receive_valid is_respawning strike
receive_valid_iff a s player_id device_id = ground arith

-- With at most one confirmation waiting, a round on a word that validates acts exactly when the
-- player is up, the word is the one that waits, it comes less than 500 ms after it, the shooter is
-- another player and, if a server is connected and has sent a roster, is in the roster.
pub processing_round_iff :
    (a : Arrival) (s : Target) (player_id device_id : ℕ)
    → IsConfirm s.confirm
    → validate_laser_message a.word ≡ some (player_id, device_id)
    → ((step a s).0 ≢ []) ↔ IsHit a s player_id device_id
processing_round_iff a s player_id device_id h valid = ground (
  arith,
  step_valid a s player_id device_id valid,
  receive_valid_iff a s player_id device_id,
  confirmed_iff (now_ms a.clock.at_receive) a.word s.confirm h,
  accepts_iff a.connected player_id s.game,
)

receive_valid-strike :
    (a : Arrival) (s : Target) (player_id device_id : ℕ)
    → IsHit a s player_id device_id
    → receive_valid a.connected a.connected_again a.clock player_id device_id a.word s
      ≡ strike a.connected_again a.clock player_id device_id a.word
          (record s { confirm = record s.confirm { last_valid_msg = 0; confirm_count = 0 } })
unfolding receive_valid is_respawning
receive_valid-strike a s player_id device_id h =
    simp
      (
        h.alive,
        (confirmed_iff (now_ms a.clock.at_receive) a.word s.confirm (omega (arith, h.waiting))).1
            (h.repeated, h.in_time, h.waiting),
        ==_ne player_id s.game.config.player_id h.other,
        (accepts_iff a.connected player_id s.game).1 h.known,
        confirm_word_time (now_ms a.clock.at_receive) a.word s.confirm h.repeated h.in_time,
      )
      refl

-- A hit does, in order, the vibration, the display events of the kill and of the respawn countdown,
-- the radio report under the shooter's identifiers and, if a browser is connected, the web report,
-- numbered and with 0 for the shooter; it records a death, counts the hit, and leaves no
-- confirmation waiting.
pub processing_round-IsHit :
    (a : Arrival) (s : Target) (player_id device_id : ℕ)
    → IsHit a s player_id device_id
    → let game = record_death a.clock.at_death s.game in
      let seq = u32 (s.game.state.broadcast_seq_id + 1) in
      ((step a s).0
        ≡ vibrate
          ∷ post (evt_killed player_id device_id)
          ∷ post (evt_respawn_start s.game.game_cfg.respawn_cooldown_ms)
          ∷ radio (hit_message player_id device_id a.word a.clock.at_send s.game)
          ∷ (if a.connected_again then web (hit_report a.clock.at_web 0 seq) ∷ [] else []))
      × ((step a s).1.game ≡ (
          if a.connected_again
          then record game { state = record game.state { broadcast_seq_id = seq } }
          else game))
      × ((step a s).1.hits.hit_count ≡ u32 (s.hits.hit_count + 1))
      × ((step a s).1.confirm.confirm_count ≡ 0)
unfolding strike game_task_record_hit record_death is_respawning hit_message broadcast_hit atoi
    next_seq_id
processing_round-IsHit a s player_id device_id h =
    rw (step_valid a s player_id device_id h.valid, receive_valid-strike a s player_id device_id h)
      (refl, ground arith, refl, refl)
