-- ===== src/Laser.antt =====
-- The laser message codec of esp32/shared/include/hash.h, and the transmission loop
-- `sendMessage` of esp32/weapon/src/tasks/laser_task.cpp.
pub mod Hash
pub mod Codec
pub mod Wire
use ray_z.Prelude.{
  ℕ, suc, zero, ◌+◌, ◌*◌, ◌/◌, ◌^◌, bit_and, bit_or, bit_xor, ◌&&◌, ◌||◌, not, Option, none, some,
  List, [], ◌∷◌, u8, u32, ltb, ◌==◌, if◌then◌else◌,
}
use ray_z.Protocol.{hash_xor_seed, hash_offset, max_player_id, max_device_id, message_total_bits}

-- `x << k` and `x >> k` on `uint32_t`
abbrev pub shl32 : ℕ → ℕ → ℕ
shl32 x k = u32 (x * 2 ^ k)

abbrev pub shr : ℕ → ℕ → ℕ
shr x k = x / 2 ^ k

unfoldable pub calculate_hash_8bit : ℕ → ℕ
calculate_hash_8bit x = u8 (bit_and (bit_xor (bit_and x 0xff) hash_xor_seed + hash_offset) 0xff)

unfoldable pub create_laser_message : ℕ → ℕ → ℕ
unfolding calculate_hash_8bit
create_laser_message player_id device_id =
    let player = u8 (bit_and player_id max_player_id) in
    let device = u8 (bit_and device_id max_device_id) in
    let p_hash = calculate_hash_8bit player in
    let d_hash = calculate_hash_8bit device in
    bit_or (bit_or (bit_or (shl32 player 24) (shl32 device 16)) (shl32 p_hash 8)) d_hash

-- `none` is the result `false`; `some` carries what goes through the two out parameters.
unfoldable pub validate_laser_message : ℕ → Option (ℕ × ℕ)
unfolding calculate_hash_8bit
validate_laser_message message =
    let player_id = u8 (bit_and (shr message 24) 0xff) in
    let device_id = u8 (bit_and (shr message 16) 0xff) in
    let p_hash = u8 (bit_and (shr message 8) 0xff) in
    let d_hash = u8 (bit_and message 0xff) in
    let hashes =
      (p_hash == calculate_hash_8bit player_id) && (d_hash == calculate_hash_8bit device_id) in
    let noise = hashes && (ltb max_player_id player_id || ltb max_device_id device_id) in
    if hashes && not noise then some (player_id, device_id) else none

-- The loop of `sendMessage`: `i` bits are left, the next one is bit `i - 1`. The result is the
-- levels written to the laser pin, one for each bit period, and the last level, off.
unfoldable pub send_bits : ℕ → ℕ → List ℕ
send_bits zero message = 0 ∷ []
send_bits (suc i) message = (if bit_and (shr message i) 1 == 1 then 1 else 0) ∷ send_bits i message

unfoldable pub send_message : ℕ → List ℕ
unfolding send_bits
send_message message = send_bits message_total_bits message
