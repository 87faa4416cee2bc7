-- ===== src/Utils/Binary.antt =====
-- What a reader makes of the binary text (esp32/shared/src/utils.cpp).
use native.Mathlib.Nat.{div-add-mod, div-div-eq-div-mul, mod_def, pow-suc}
use ray_z.Laser.Wire.{bits}
use ray_z.Prelude.{
  Bytes, [], arith, if◌then◌else◌, length, suc, zero, ℕ, ◌%◌, ◌*◌, ◌+◌, ◌-◌, ◌/◌, ◌==◌, ◌^◌, ◌∙◌,
  ◌∷◌, ◌≡◌, ap, sym, Bool, false, ltb, refl, true, ◌&&◌,
}
use ray_z.Utils.{binary_from, to_binary_string}

-- The number that the digits spell behind `n`; spaces are skipped.
unfoldable pub read_binary : Bytes → ℕ → ℕ
read_binary [] n = n
read_binary (c ∷ s) n = if c == b' ' then read_binary s n else read_binary s (2 * n + (c - b'0'))

mod_pow_suc : (v i : ℕ) → v % 2 ^ suc i ≡ v / 2 ^ i % 2 * 2 ^ i + v % 2 ^ i
mod_pow_suc v i =
    let p = 2 ^ i in
    let q = v / p in
    let halves : v / (p * 2) ≡ q / 2 = sym (div-div-eq-div-mul v p 2) in
    let whole : v % (p * 2) ≡ v - p * 2 * (q / 2) =
      mod_def v (p * 2) ∙ ap (λ (t : ℕ). v - p * 2 * t) halves in
    let split : p * q ≡ p * (2 * (q / 2) + q % 2) = ap (λ (t : ℕ). p * t) (sym (div-add-mod q 2)) in
    let double : v % 2 ^ suc i ≡ v % (p * 2) = ap (λ (t : ℕ). v % t) (pow-suc 2 i) in
    grind (arith, div-add-mod v p)

read_digit :
    (q : ℕ) (s : Bytes) (n : ℕ)
    → read_binary ((if q % 2 == 1 then b'1' else b'0') ∷ s) n ≡ read_binary s (2 * n + q % 2)
unfolding read_binary
read_digit q s n = ground arith

read_space :
    (b : Bool) (s : Bytes) (n : ℕ) → read_binary (if b then b' ' ∷ s else s) n ≡ read_binary s n
unfolding read_binary
read_space true s n = refl
read_space false s n = refl

read_binary-binary_from :
    (bits v n : ℕ) → read_binary (binary_from bits v) n ≡ n * 2 ^ bits + v % 2 ^ bits
unfolding binary_from read_binary
read_binary-binary_from zero v n = grind arith
read_binary-binary_from (suc i) v n =
    let q = v / 2 ^ i in
    let rest = read_binary-binary_from i v (2 * n + q % 2) in
    let tail = binary_from i v in
    let group = ltb 0 i && (i % 4 == 0) in
    read_digit q (if group then b' ' ∷ tail else tail) n
    ∙ read_space group tail (2 * n + q % 2)
    ∙ rest
    ∙ grind (arith, mod_pow_suc v i, pow-suc 2 i)

length-binary_from : (bits v : ℕ) → length (binary_from bits v) ≡ bits + (bits - 1) / 4
unfolding binary_from
length-binary_from zero v = refl
length-binary_from (suc i) v = ground (arith, length-binary_from i v)

-- The text is read back as the value modulo 2^bits, and has a digit for each bit and a space for
-- each four bits that others precede.
pub read_binary-to_binary_string :
    (value bits : ℕ)
    → (read_binary (to_binary_string value bits) 0 ≡ value % 2 ^ bits)
      × (length (to_binary_string value bits) ≡ bits + (bits - 1) / 4)
unfolding to_binary_string
read_binary-to_binary_string value bits =
    (read_binary-binary_from bits value 0 ∙ grind arith, length-binary_from bits value)
