-- ===== src/Laser/Codec.antt =====
-- `createLaserMessage` and `validateLaserMessage` of esp32/shared/include/hash.h undo each other.
use ray_z.Laser.{calculate_hash_8bit, create_laser_message, shl32, shr, validate_laser_message}
use ray_z.Laser.Hash.{calculate_hash_8bit-lt, calculate_hash_8bit-injective}
use ray_z.Prelude.{
  ap, arith, bit_and, bit_and_low5, bit_and_low6, bit_and_low8, bit_or, bit_or_disjoint, some, sym,
  u8, ℕ, ◌%◌, ◌*◌, ◌+◌, ◌/◌, ◌<◌, ◌^◌, ◌∙◌, ◌≡◌, ◌≤◌, ◌↔◌,
}
use ray_z.Protocol.{max_device_id, max_player_id}

module _ (p d ph dh : ℕ) (hp : p < 256) (hd : d < 256) (hph : ph < 256) (hdh : dh < 256) where
  or_player_device : bit_or (shl32 p 24) (shl32 d 16) ≡ (p * 256 + d) * 2 ^ 16
  or_player_device =
      ap (λ x. bit_or x (shl32 d 16)) (omega arith)
      ∙ bit_or_disjoint 24 p (shl32 d 16) (omega arith)
      ∙ omega arith

  or_p_hash : bit_or ((p * 256 + d) * 2 ^ 16) (shl32 ph 8) ≡ ((p * 256 + d) * 256 + ph) * 2 ^ 8
  or_p_hash = bit_or_disjoint 16 (p * 256 + d) (shl32 ph 8) (omega arith) ∙ omega arith

  -- The four bytes of a message, side by side.
  pack_lem :
      bit_or (bit_or (bit_or (shl32 p 24) (shl32 d 16)) (shl32 ph 8)) dh
      ≡ ((p * 256 + d) * 256 + ph) * 256 + dh
  pack_lem =
      ap (λ x. bit_or (bit_or x (shl32 ph 8)) dh) or_player_device
      ∙ ap (λ x. bit_or x dh) or_p_hash
      ∙ bit_or_disjoint 8 ((p * 256 + d) * 256 + ph) dh (omega arith)

-- The word with the given identifiers and their hashes.
abbrev pub codeword : ℕ → ℕ → ℕ
codeword p d = ((p * 256 + d) * 256 + calculate_hash_8bit p) * 256 + calculate_hash_8bit d

pub create_laser_message_lem :
    (player_id device_id : ℕ)
    → create_laser_message player_id device_id ≡ codeword (player_id % 32) (device_id % 64)
unfolding create_laser_message
create_laser_message_lem player_id device_id =
    let p : u8 (bit_and player_id max_player_id) ≡ player_id % 32 =
      omega (arith, bit_and_low5 player_id) in
    let d : u8 (bit_and device_id max_device_id) ≡ device_id % 64 =
      omega (arith, bit_and_low6 device_id) in
    rw (p, d)
      (pack_lem (player_id % 32) (device_id % 64) _ _ (omega arith) (omega arith)
        (calculate_hash_8bit-lt _) (calculate_hash_8bit-lt _))

-- The four fields that `validateLaserMessage` reads.
module _ (m : ℕ) where
  field_player : u8 (bit_and (shr m 24) 0xff) ≡ m / 2 ^ 24 % 256
  field_player = omega (arith, bit_and_low8 (shr m 24))

  field_device : u8 (bit_and (shr m 16) 0xff) ≡ m / 2 ^ 16 % 256
  field_device = omega (arith, bit_and_low8 (shr m 16))

  field_p_hash : u8 (bit_and (shr m 8) 0xff) ≡ m / 2 ^ 8 % 256
  field_p_hash = omega (arith, bit_and_low8 (shr m 8))

  field_d_hash : u8 (bit_and m 0xff) ≡ m % 256
  field_d_hash = omega (arith, bit_and_low8 m)

-- A word is accepted with identifiers `p`, `d` exactly if it is their codeword and they are in
-- range.
validate_codeword :
    (p d : ℕ) → p < 32 → d < 64 → validate_laser_message (codeword p d) ≡ some (p, d)
unfolding validate_laser_message
validate_codeword p d hp hd = ground (
  arith,
  field_player (codeword p d),
  field_device (codeword p d),
  field_p_hash (codeword p d),
  field_d_hash (codeword p d),
  calculate_hash_8bit-lt p,
  calculate_hash_8bit-lt d,
)

validate_accepts :
    (m p d : ℕ)
    → m < 2 ^ 32
    → validate_laser_message m ≡ some (p, d)
    → (p < 32) × (d < 64) × (m ≡ codeword p d)
unfolding validate_laser_message
validate_accepts m p d h e =
    ground (arith, field_player m, field_device m, field_p_hash m, field_d_hash m)

-- The message made of a player and a device validates, to these identifiers modulo their widths of
-- 5 and 6 bits.
pub validate-create :
    (player_id device_id : ℕ)
    → validate_laser_message (create_laser_message player_id device_id)
      ≡ some (player_id % 32, device_id % 64)
validate-create player_id device_id =
    rw create_laser_message_lem
      (validate_codeword (player_id % 32) (device_id % 64) (omega arith) (omega arith))

-- A 32-bit word that validates is the message which the sender makes of the identifiers it was read
-- as, and these fit their 5 and 6 bits.
pub create-validate :
    (message player_id device_id : ℕ)
    → message < 2 ^ 32
    → validate_laser_message message ≡ some (player_id, device_id)
    → (create_laser_message player_id device_id ≡ message)
      × (player_id ≤ max_player_id)
      × (device_id ≤ max_device_id)
create-validate message player_id device_id h e =
    let (hp, hd, eq) = validate_accepts message player_id device_id h e in
    let p : player_id % 32 ≡ player_id = omega arith in
    let d : device_id % 64 ≡ device_id = omega arith in
    (create_laser_message_lem player_id device_id ∙ rw (p, d) (sym eq), omega arith, omega arith)

codeword_fields :
    (p d : ℕ)
    → p < 32
    → d < 64
    → (codeword p d / 2 ^ 24 ≡ p)
      × (codeword p d / 2 ^ 16 % 256 ≡ d)
      × (codeword p d / 2 ^ 8 % 256 ≡ calculate_hash_8bit p)
      × (codeword p d % 256 ≡ calculate_hash_8bit d)
codeword_fields p d hp hd = omega (arith, calculate_hash_8bit-lt p, calculate_hash_8bit-lt d)

hash_iff : (x y : ℕ) → x < 256 → y < 256 → (x ≡ y) ↔ (calculate_hash_8bit x ≡ calculate_hash_8bit y)
hash_iff x y hx hy = (ap calculate_hash_8bit, calculate_hash_8bit-injective x y hx hy)

-- Two accepted words that agree in an identifier's byte agree in its hash's byte, and the other
-- way round: so distinct accepted words differ in two bytes at least, and a word that differs
-- from an accepted one in a single byte is rejected.
pub accepted_distance :
    (m n p d q e : ℕ)
    → m < 2 ^ 32
    → n < 2 ^ 32
    → validate_laser_message m ≡ some (p, d)
    → validate_laser_message n ≡ some (q, e)
    → ((m / 2 ^ 24 ≡ n / 2 ^ 24) ↔ (m / 2 ^ 8 % 256 ≡ n / 2 ^ 8 % 256))
      × ((m / 2 ^ 16 % 256 ≡ n / 2 ^ 16 % 256) ↔ (m % 256 ≡ n % 256))
accepted_distance m n p d q e hm hn am an =
    let (hp, hd, cm) = validate_accepts m p d hm am in
    let (hq, he, cn) = validate_accepts n q e hn an in
    let (mp, md, mph, mdh) = codeword_fields p d hp hd in
    let (np, nd, nph, ndh) = codeword_fields q e hq he in
    rw (cm, cn)
      (rw (mp, md, mph, mdh, np, nd, nph, ndh)
        (hash_iff p q (omega arith) (omega arith), hash_iff d e (omega arith) (omega arith)))
