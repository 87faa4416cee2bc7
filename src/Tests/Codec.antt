-- ===== src/Tests/Codec.antt =====
-- The codec at the message of player 5, device 9.
use ray_z.Laser.{calculate_hash_8bit, create_laser_message, validate_laser_message}
use ray_z.Laser.Codec.{create-validate, validate-create}
use ray_z.Prelude.{arith, refl, some, ◌%◌, ◌≡◌, ◌≤◌}
use ray_z.Protocol.{max_device_id, max_player_id}

create-validate_example :
    (create_laser_message 5 9 ≡ create_laser_message 5 9)
    × (5 ≤ max_player_id)
    × (9 ≤ max_device_id)
unfolding create_laser_message calculate_hash_8bit validate_laser_message
create-validate_example = create-validate (create_laser_message 5 9) 5 9 (omega arith) refl

validate-create_example : validate_laser_message (create_laser_message 5 9) ≡ some (5 % 32, 9 % 64)
validate-create_example = validate-create 5 9
