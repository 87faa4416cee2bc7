-- ===== src/Laser/Hash.antt =====
-- The 8-bit hash of a message field: no two bytes share one.
use ray_z.Laser.{calculate_hash_8bit}
use ray_z.Prelude.{
  ℕ, ◌+◌, ◌%◌, ◌<◌, ◌^◌, bit_xor, ◌≡◌, refl, true, ◌==◌, ==_iff, all_below, all_below_sound, arith,
  ap, sym, ◌∙◌,
}

-- What undoes the hash on a byte.
abbrev unhash : ℕ → ℕ
unhash h = bit_xor ((h + 255) % 256) 0b10101010

unhash_table : all_below 256 (λ x. unhash (calculate_hash_8bit x) == x) ≡ true
unfolding all_below calculate_hash_8bit
unhash_table = refl

-- `calculateHash8bit` maps distinct bytes to distinct hashes.
pub calculate_hash_8bit-injective :
    (x y : ℕ) → x < 2 ^ 8 → y < 2 ^ 8 → calculate_hash_8bit x ≡ calculate_hash_8bit y → x ≡ y
calculate_hash_8bit-injective x y hx hy e = sym (back x hx) ∙ ap unhash e ∙ back y hy
  where
    back : (n : ℕ) → n < 256 → unhash (calculate_hash_8bit n) ≡ n
    back n h = (==_iff _ n).0 (all_below_sound 256 _ n unhash_table h)

pub calculate_hash_8bit-lt : (x : ℕ) → calculate_hash_8bit x < 256
unfolding calculate_hash_8bit
calculate_hash_8bit-lt x = omega arith
