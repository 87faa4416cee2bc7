-- ===== src/Prelude/Bits.antt =====
-- The native bit operations at variables: masks of low bits and words built from bit fields.
-- Each operation is a recursion on binary digits; `d` is how many digits are looked at.
use Prim.Native.Nat.{
  ℕ, zero, suc, ◌+◌, ◌*◌, ◌/◌, ◌%◌, ◌^◌, ◌≤◌, ◌<◌, min, max, bit_and, bit_or, digits,
  bit_and-bitwise, bit_or-bitwise,
}
use mathlib.Core.Path.{◌≡◌, refl, sym, ◌∙◌, ap}
use native.Mathlib.Nat.{pow-suc}
use native.Mathlib.Omega.{arith}

module _ (z : ℕ → ℕ) (op : ℕ → ℕ → ℕ) where
  digits-zero : (b n : ℕ) → digits z op n zero b ≡ z b
  digits-zero b zero = refl
  digits-zero b (suc n) = refl

  -- Any two numbers of digits that cover the first operand give the same result.
  digits_agree : (a b m n : ℕ) → a ≤ m → a ≤ n → digits z op m a b ≡ digits z op n a b
  digits_agree zero b m n _ _ = digits-zero b m ∙ sym (digits-zero b n)
  digits_agree (suc a) b (suc m) (suc n) low_m low_n =
      omega (arith, digits_agree (suc a / 2) (b / 2) m n (omega arith) (omega arith))
  digits_agree (suc a) b zero n low_m _ = absurd (omega arith)
  digits_agree (suc a) b (suc m) zero _ low_n = absurd (omega arith)

-- One binary digit of each operation.
and_step : (a b : ℕ) → bit_and a b ≡ min (a % 2) (b % 2) + 2 * bit_and (a / 2) (b / 2)
and_step zero b = omega (arith, bit_and-bitwise zero (b / 2), bit_and-bitwise zero b)
and_step (suc a) b =
    let half = suc a / 2 in
    omega (
      arith,
      bit_and-bitwise half (b / 2),
      bit_and-bitwise (suc a) b,
      digits_agree (λ _. zero) min half (b / 2) a half (omega arith) (omega arith),
    )

or_step : (a b : ℕ) → bit_or a b ≡ max (a % 2) (b % 2) + 2 * bit_or (a / 2) (b / 2)
or_step zero b = omega (arith, bit_or-bitwise zero (b / 2), bit_or-bitwise zero b)
or_step (suc a) b =
    let half = suc a / 2 in
    omega (
      arith,
      bit_or-bitwise half (b / 2),
      bit_or-bitwise (suc a) b,
      digits_agree (λ y. y) max half (b / 2) a half (omega arith) (omega arith),
    )

bit_and-zero_fuel : (d a : ℕ) → a ≤ d → bit_and a 0 ≡ 0
bit_and-zero_fuel d zero h = omega (arith, and_step zero 0, bit_and-bitwise zero 0)
bit_and-zero_fuel zero (suc a) h = absurd (omega arith)
bit_and-zero_fuel (suc d) (suc a) h =
    omega (arith, and_step (suc a) 0, bit_and-zero_fuel d (suc a / 2) (omega arith))

bit_or-zero_fuel : (d a : ℕ) → a ≤ d → bit_or a 0 ≡ a
bit_or-zero_fuel d zero h = omega (arith, bit_or-bitwise zero 0)
bit_or-zero_fuel zero (suc a) h = absurd (omega arith)
bit_or-zero_fuel (suc d) (suc a) h =
    omega (arith, or_step (suc a) 0, bit_or-zero_fuel d (suc a / 2) (omega arith))

-- A word of `k` ones, and the `k` low bits of `a`.
abbrev ones : ℕ → ℕ
ones zero = 0
ones (suc k) = 2 * ones k + 1

abbrev low : ℕ → ℕ → ℕ
low zero a = 0
low (suc k) a = low k (a / 2) * 2 + a % 2

bit_and-ones : (k a : ℕ) → bit_and a (ones k) ≡ low k a
bit_and-ones zero a = bit_and-zero_fuel a a (omega arith)
bit_and-ones (suc k) a =
    let e : (2 * ones k + 1) / 2 ≡ ones k = omega arith in
    let d : (2 * ones k + 1) % 2 ≡ 1 = omega arith in
    and_step a (ones (suc k)) ∙ rw (e, d) (omega (arith, bit_and-ones k (a / 2)))

-- The masks of the source: one bit, and the low 5, 6 and 8 bits.
pub bit_and_one : (a : ℕ) → bit_and a 1 ≡ a % 2
bit_and_one a = omega (arith, bit_and-ones 1 a)

pub bit_and_low5 : (a : ℕ) → bit_and a 31 ≡ a % 32
bit_and_low5 a = omega (arith, bit_and-ones 5 a)

pub bit_and_low6 : (a : ℕ) → bit_and a 63 ≡ a % 64
bit_and_low6 a = omega (arith, bit_and-ones 6 a)

pub bit_and_low8 : (a : ℕ) → bit_and a 255 ≡ a % 256
bit_and_low8 a = omega (arith, bit_and-ones 8 a)

-- Dropping the lowest digit of a shifted word.
halve : (k q : ℕ) → q * 2 ^ suc k / 2 ≡ q * 2 ^ k
halve k q = omega (arith, ap (λ (t : ℕ). q * t) (pow-suc 2 k))

-- A field that fits below the lowest set bit of the other operand is added.
pub bit_or_disjoint : (k q r : ℕ) → r < 2 ^ k → bit_or (q * 2 ^ k) r ≡ q * 2 ^ k + r
bit_or_disjoint zero q zero h = omega (arith, bit_or-zero_fuel (q * 1) (q * 1) (omega arith))
bit_or_disjoint zero q (suc r) h = absurd (omega arith)
bit_or_disjoint (suc k) q r h = omega (
  arith,
  pow-suc 2 k,
  ap (λ (t : ℕ). q * t) (pow-suc 2 k),
  or_step (q * 2 ^ suc k) r,
  bit_or_disjoint k q (r / 2) (omega (arith, pow-suc 2 k)),
  ap (λ (x : ℕ). bit_or x (r / 2)) (halve k q),
)
