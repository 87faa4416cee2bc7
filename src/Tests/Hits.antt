-- ===== src/Tests/Hits.antt =====
-- Bob's target in front of Alice's weapon.
use ray_z.Events.{evt_killed, evt_respawn_start, post, radio, vibrate}
use ray_z.GameState.Runtime.{record_death}
use ray_z.Hit.{Target, hit_message, no_confirm}
use ray_z.Hit.Filter.{Arrival, count_hits, count_hits-bound, count_valid, step}
use ray_z.Hit.Strike.{IsHit, processing_round-IsHit, processing_round_iff}
use ray_z.Hit.TwoWords.{two_words_hit}
use ray_z.Laser.{calculate_hash_8bit, create_laser_message, validate_laser_message}
use ray_z.Laser.Codec.{validate-create}
use ray_z.Prelude.{
  [], arith, false, refl, some, u32, ℕ, ◌%◌, ◌*◌, ◌+◌, ◌↔◌, ◌∷◌, ◌≡◌, ◌≢◌, ◌≤◌, ◌-◌,
}
use ray_z.Tests.Data.{bob}

abbrev bob_target : Target
bob_target = record {
  confirm = no_confirm;
  game = bob;
  hits = record { hit_count = 0; last_hit_ms = 0 };
}

-- Alice's word, received at `t` microseconds.
abbrev shot_at : ℕ → Arrival
shot_at t = record {
  connected = false;
  connected_again = false;
  clock = record {
    at_receive = t;
    at_death = t + 60000;
    at_hit = t + 60001;
    at_send = t + 60002;
    at_web = t + 60003;
  };
  word = create_laser_message 5 9;
}

valid : validate_laser_message (create_laser_message 5 9) ≡ some (5, 9)
valid = validate-create 5 9

-- Her word has been seen once.
abbrev waiting_target : Target
waiting_target = record bob_target {
  confirm = record {
    last_valid_msg = create_laser_message 5 9;
    last_valid_time = 1000;
    confirm_count = 1;
  };
}

hit : IsHit (shot_at 1200000) waiting_target 5 9
hit = record {
  valid = valid;
  alive = refl;
  repeated = refl;
  in_time = omega arith;
  waiting = refl;
  other = omega arith;
  known = λ e. absurd (cc);
}

processing_round_iff_example :
    ((step (shot_at 1200000) waiting_target).0 ≢ []) ↔ IsHit (shot_at 1200000) waiting_target 5 9
processing_round_iff_example =
    processing_round_iff (shot_at 1200000) waiting_target 5 9 (omega arith) valid

processing_round-IsHit_example :
    ((step (shot_at 1200000) waiting_target).0
      ≡ vibrate
        ∷ post (evt_killed 5 9)
        ∷ post (evt_respawn_start bob.game_cfg.respawn_cooldown_ms)
        ∷ radio (hit_message 5 9 (create_laser_message 5 9) 1260002 bob)
        ∷ [])
    × ((step (shot_at 1200000) waiting_target).1.game ≡ record_death 1260000 bob)
    × ((step (shot_at 1200000) waiting_target).1.hits.hit_count ≡ u32 1)
    × ((step (shot_at 1200000) waiting_target).1.confirm.confirm_count ≡ 0)
processing_round-IsHit_example = processing_round-IsHit (shot_at 1200000) waiting_target 5 9 hit

two_words_hit_example :
    let (acts1, s1) = step (shot_at 1000000) bob_target in
    let (acts2, s2) = step (shot_at 1200000) s1 in
    (acts1 ≡ [])
    × (acts2
        ≡ vibrate
          ∷ post (evt_killed (5 % 32) (9 % 64))
          ∷ post (evt_respawn_start bob.game_cfg.respawn_cooldown_ms)
          ∷ radio (hit_message (5 % 32) (9 % 64) (create_laser_message 5 9) 1260002 bob)
          ∷ [])
    × (s2.game.state.hearts_remaining ≡ 3 - 1)
    × (s2.game.state.deaths ≡ u32 (0 + 1))
    × (s2.hits.hit_count ≡ u32 (0 + 1))
    × ((step (shot_at 1400000) s2).0 ≡ [])
unfolding create_laser_message calculate_hash_8bit
two_words_hit_example =
    two_words_hit (shot_at 1000000) (shot_at 1200000) (shot_at 1400000) bob_target 5 9 (omega arith)
      refl (omega arith) refl refl (λ e. absurd cc) (omega arith) (omega arith)

count_hits-bound_example :
    2 * count_hits (shot_at 1000000 ∷ shot_at 1200000 ∷ shot_at 1400000 ∷ []) bob_target
    ≤ count_valid (shot_at 1000000 ∷ shot_at 1200000 ∷ shot_at 1400000 ∷ []) + 0
count_hits-bound_example =
    count_hits-bound (shot_at 1000000 ∷ shot_at 1200000 ∷ shot_at 1400000 ∷ []) bob_target
      (omega arith)
