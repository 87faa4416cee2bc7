-- ===== src/Hit/TwoWords.antt =====
-- A word that is seen twice: both rounds of the task and the one after them
-- (esp32/target/src/tasks/processing_task.cpp).
use ray_z.Events.{evt_killed, evt_respawn_start, post, radio, vibrate, web}
use ray_z.GameState.Defs.{Vars}
use ray_z.GameState.Roster.{get_player_name}
use ray_z.GameState.Runtime.{is_respawning, record_death}
use ray_z.GameState.Runtime.Respawn.{record_death_lem}
use ray_z.Hit.{Target, confirm_word, hit_message, processing_round, receive_valid}
use ray_z.Hit.Filter.{Arrival, IsConfirm, step}
use ray_z.Hit.Strike.{IsHit, processing_round-IsHit, step_valid}
use ray_z.Laser.{create_laser_message, validate_laser_message}
use ray_z.Laser.Codec.{validate-create}
use ray_z.Prelude.{
  ==_ne, [], ap, arith, false, if◌then◌else◌, none, now_ms, refl, some, sub32, sym, true, u32, ℕ,
  ◌%◌, ◌+◌, ◌-◌, ◌<◌, ◌∙◌, ◌∷◌, ◌≡◌, ◌≢◌,
}
use ray_z.WsServer.Messages.{hit_report}

deaths-record_death :
    (t : ℕ) (g : Vars) → (record_death t g).state.deaths ≡ u32 (g.state.deaths + 1)
unfolding record_death
deaths-record_death t g = refl

first_word :
    (a : Arrival) (s : Target) (player_id device_id : ℕ)
    → validate_laser_message a.word ≡ some (player_id, device_id)
    → s.game.state.respawning ≡ false
    → s.confirm.last_valid_msg ≢ a.word
    → step a s ≡ (
      [],
      record s {
        confirm = record {
          last_valid_msg = a.word;
          last_valid_time = now_ms a.clock.at_receive;
          confirm_count = 1;
        };
      },
    )
unfolding receive_valid confirm_word is_respawning
first_word a s player_id device_id valid up fresh = step_valid a s player_id device_id valid ∙ go
  where
    go : receive_valid a.connected a.connected_again a.clock player_id device_id a.word s ≡ (
      [],
      record s {
        confirm = record {
          last_valid_msg = a.word;
          last_valid_time = now_ms a.clock.at_receive;
          confirm_count = 1;
        };
      },
    )
    go = simp (up, ==_ne a.word s.confirm.last_valid_msg (λ e. fresh (sym e))) refl

no_hit_when_down : (a : Arrival) (s : Target) → s.game.state.respawning ≡ true → (step a s).0 ≡ []
unfolding processing_round receive_valid is_respawning
no_hit_when_down a s down = ground (arith, down)

-- A word of a weapon that is seen twice within 500 ms, by a player who is up, has at most one
-- confirmation waiting and not of this word, is not the shooter and, when a server is connected and
-- has sent a roster, has the shooter on it, does nothing the first time. The second time it does,
-- in order, the vibration, the display events of the kill and of the respawn, the radio report
-- under the identifiers that were sent (modulo their widths) and, when a browser is connected, the
-- web report; it costs a heart, if one is left, and counts one death and one hit. What is seen
-- next, before the player is back, does nothing.
pub two_words_hit :
    (a b c : Arrival) (s : Target) (player_id device_id : ℕ)
    → IsConfirm s.confirm
    → s.game.state.respawning ≡ false
    → s.confirm.last_valid_msg ≢ create_laser_message player_id device_id
    → a.word ≡ create_laser_message player_id device_id
    → b.word ≡ create_laser_message player_id device_id
    → (b.connected ≡ true
        → 0 < s.game.player_count
        → get_player_name (player_id % 32) s.game ≢ none)
    → player_id % 32 ≢ s.game.config.player_id
    → sub32 (now_ms b.clock.at_receive) (now_ms a.clock.at_receive) < 500
    → let (acts1, s1) = step a s in
      let (acts2, s2) = step b s1 in
      let seq = u32 (s.game.state.broadcast_seq_id + 1) in
      (acts1 ≡ [])
      × (acts2
          ≡ vibrate
            ∷ post (evt_killed (player_id % 32) (device_id % 64))
            ∷ post (evt_respawn_start s.game.game_cfg.respawn_cooldown_ms)
            ∷ radio (hit_message (player_id % 32) (device_id % 64) b.word b.clock.at_send s.game)
            ∷ (if b.connected_again then web (hit_report b.clock.at_web 0 seq) ∷ [] else []))
      × (s2.game.state.hearts_remaining ≡ s.game.state.hearts_remaining - 1)
      × (s2.game.state.deaths ≡ u32 (s.game.state.deaths + 1))
      × (s2.hits.hit_count ≡ u32 (s.hits.hit_count + 1))
      × ((step c s2).0 ≡ [])
unfolding is_respawning
two_words_hit a b c s player_id device_id h up fresh word_a word_b known other soon =
    let valid_a = ap validate_laser_message word_a ∙ validate-create player_id device_id in
    let valid_b = ap validate_laser_message word_b ∙ validate-create player_id device_id in
    let first =
      first_word a s (player_id % 32) (device_id % 64) valid_a up (λ e. fresh (e ∙ word_a)) in
    let waiting = record s {
      confirm = record {
        last_valid_msg = a.word;
        last_valid_time = now_ms a.clock.at_receive;
        confirm_count = 1;
      };
    } in
    let hit : IsHit b waiting (player_id % 32) (device_id % 64) = record {
      valid = valid_b;
      alive = up;
      repeated = word_b ∙ sym word_a;
      in_time = soon;
      waiting = refl;
      other = other;
      known = known;
    } in
    let (acts, game, hits, _) =
      processing_round-IsHit b waiting (player_id % 32) (device_id % 64) hit in
    rw first (
      refl,
      acts,
      ap (λ g. g.state.hearts_remaining) game
          ∙ ground (arith, record_death_lem b.clock.at_death s.game),
      ap (λ g. g.state.deaths) game ∙ ground (arith, deaths-record_death b.clock.at_death s.game),
      hits,
      no_hit_when_down c (step b waiting).1 (
          ap (λ g. is_respawning g) game
          ∙ ground (arith, record_death_lem b.clock.at_death s.game)),
    )
