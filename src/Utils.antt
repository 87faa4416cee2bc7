-- ===== src/Utils.antt =====
-- `toBinaryString`, esp32/shared/src/utils.cpp: the low `bits` digits, at most 32, of a word with a
-- space behind each group of four.
pub mod Binary
use ray_z.Laser.Wire.{bits}
use ray_z.Prelude.{Bytes, [], if◌then◌else◌, ltb, suc, zero, ℕ, ◌%◌, ◌&&◌, ◌/◌, ◌==◌, ◌^◌, ◌∷◌}

-- The rounds of the loop for `i` and below; the argument is `i + 1`.
unfoldable pub binary_from : ℕ → ℕ → Bytes
binary_from zero value = []
binary_from (suc i) value =
    let rest = binary_from i value in
    (if value / 2 ^ i % 2 == 1 then b'1' else b'0')
    ∷ (if ltb 0 i && (i % 4 == 0) then b' ' ∷ rest else rest)

unfoldable pub to_binary_string : ℕ → ℕ → Bytes
to_binary_string value bits = binary_from bits value
