-- ===== src/Laser/Wire.antt =====
-- The transmission of `sendMessage` (esp32/weapon/src/tasks/laser_task.cpp): which levels it
-- writes, and that a receiver which shifts them in gets the message back.
use native.Mathlib.Nat.{div-div-eq-div-mul, pow-suc}
use ray_z.Laser.{send_bits, send_message, shr}
use ray_z.Prelude.{
  List, [], ap, arith, bit_and_one, length, refl, suc, zero, ℕ, ◌%◌, ◌*◌, ◌++◌, ◌+◌, ◌/◌, ◌<◌, ◌^◌,
  ◌∙◌, ◌∷◌, ◌≡◌,
}

-- The `i` low bits of a message, the highest first.
abbrev pub bits : ℕ → ℕ → List ℕ
bits zero message = []
bits (suc i) message = (message / 2 ^ i % 2) ∷ bits i message

-- What shifting in a list of bits makes of a word.
abbrev pub shift_in : ℕ → List ℕ → ℕ
shift_in acc [] = acc
shift_in acc (b ∷ bs) = shift_in (acc * 2 + b) bs

pub length-bits : (i message : ℕ) → length (bits i message) ≡ i
length-bits zero message = refl
length-bits (suc i) message = ap suc (length-bits i message)

send_bits_lem : (i message : ℕ) → send_bits i message ≡ bits i message ++ (0 ∷ [])
unfolding send_bits
send_bits_lem zero message = refl
send_bits_lem (suc i) message = ground (arith, bit_and_one (shr message i), send_bits_lem i message)

-- The pin carries the 32 bits of the message, the highest first, and is switched off at the end.
pub send_message_lem : (message : ℕ) → send_message message ≡ bits 32 message ++ (0 ∷ [])
unfolding send_message
send_message_lem message = send_bits_lem 32 message

shift_in-bits : (i message : ℕ) → shift_in (message / 2 ^ i) (bits i message) ≡ message
shift_in-bits zero message = omega arith
shift_in-bits (suc i) message =
    ap (λ a. shift_in a (bits i message))
      (omega (
        arith,
        div-div-eq-div-mul message (2 ^ i) 2,
        pow-suc 2 i,
        ap (λ (t : ℕ). message / t) (pow-suc 2 i),
      ))
    ∙ shift_in-bits i message

pub shift_in_message : (message : ℕ) → message < 2 ^ 32 → shift_in 0 (bits 32 message) ≡ message
shift_in_message message h =
    ap (λ a. shift_in a (bits 32 message)) {x = 0} {y = message / 2 ^ 32} (omega arith)
    ∙ shift_in-bits 32 message
