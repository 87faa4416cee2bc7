-- ===== src/Tests/Receiver.antt =====
-- The light receiver on the message of player 5, device 9.
use ray_z.Laser.{calculate_hash_8bit, create_laser_message, send_bits, send_message}
use ray_z.Laser.Wire.{bits}
use ray_z.Photodiode.{Photodiode, begin, convert_to_bits, photodiode, store_bit, update}
use ray_z.Photodiode.Receive.{convert_to_bits-send_message, store_all}
use ray_z.Photodiode.Ring.{contents, contents-store_bit, slide}
use ray_z.Photodiode.Sampling.{IsReceiver, begin-IsReceiver, update-IsReceiver}
use ray_z.Prelude.{List, [], arith, map, refl, true, ℕ, ◌*◌, ◌∷◌, ◌≡◌}
use ray_z.Tests.Data.{hundredths}

abbrev fresh : Photodiode hundredths
unfolding begin photodiode
fresh = begin hundredths true 100 100 (photodiode hundredths (0 ∷ 0 ∷ 0 ∷ []) [])

fresh-IsReceiver : IsReceiver hundredths fresh
unfolding fresh begin
fresh-IsReceiver = begin-IsReceiver hundredths (0 ∷ 0 ∷ 0 ∷ []) [] 100 100

abbrev bright : List ℕ
unfolding create_laser_message calculate_hash_8bit
bright = map (λ b. b * 300) (bits 32 (create_laser_message 5 9))

convert_to_bits-send_message_example :
    (convert_to_bits hundredths true (record fresh { ring = store_all bright fresh.ring })).0
    ≡ create_laser_message 5 9
unfolding create_laser_message calculate_hash_8bit send_message send_bits begin photodiode
convert_to_bits-send_message_example =
    convert_to_bits-send_message hundredths fresh bright (create_laser_message 5 9)
      (fresh-IsReceiver.is_ring) (omega arith) refl

contents-store_bit_example :
    contents 0 (store_bit 300 fresh.ring) ≡ slide 300 (contents 0 fresh.ring)
contents-store_bit_example = contents-store_bit 0 300 fresh.ring (fresh-IsReceiver.is_ring)

update-IsReceiver_example : IsReceiver hundredths (update hundredths true 101 2000 fresh)
update-IsReceiver_example = update-IsReceiver hundredths true 101 2000 fresh fresh-IsReceiver

-- A receiver with a full ring, two samples into a bit.
abbrev full : Photodiode hundredths
unfolding store_bit begin photodiode create_laser_message calculate_hash_8bit
full = record fresh { ring = store_all bright fresh.ring; sample_index = 2 }

full-IsReceiver : IsReceiver hundredths full
unfolding store_bit begin photodiode create_laser_message calculate_hash_8bit
full-IsReceiver = record {
  samples = refl;
  index_lt = omega arith;
  is_ring = record {
    size = refl;
    head_lt = omega arith;
    full = λ _. refl;
    filling = λ e. absurd (cc);
  };
}

abbrev flagged : Photodiode hundredths
flagged = record fresh { sample_buffer_full = true }
