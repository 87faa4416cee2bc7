-- ===== src/Prelude/Decimal.antt =====
-- Decimal numbers as `snprintf` prints them with `%u` and `%lu`, and a reader of them.
use Prim.Native.Nat.{ℕ, zero, suc, ◌+◌, ◌-◌, ◌*◌, ◌/◌, ◌%◌, ◌<◌, ◌≤◌}
use mathlib.Core.Bool.{Bool, true, false, ◌&&◌}
use mathlib.Core.List.{[], ◌∷◌, ◌++◌}
use mathlib.Core.Logic.{inl, inr}
use mathlib.Core.Path.{◌≡◌, refl, ◌∙◌, ap}
use native.Mathlib.Omega.{arith}
use ray_z.Prelude.Lists.{length}
use ray_z.Prelude.Tests.{ltb, leb, Bool-cases}
use ray_z.Prelude.Text.{Bytes}

-- The digits of `n` before `out`; the first argument is above the number of rounds.
unfoldable pub digits_from : ℕ → ℕ → Bytes → Bytes
digits_from zero n out = out
digits_from (suc f) n out = elim (ltb n 10) [
  | true ↦ (b'0' + n) ∷ out
  | false ↦ digits_from f (n / 10) ((b'0' + n % 10) ∷ out)
]

unfoldable pub print_number : ℕ → Bytes
print_number n = digits_from (suc n) n []

abbrev pub is_digit : ℕ → Bool
is_digit c = leb b'0' c && leb c b'9'

-- The number at the beginning of a text, behind the digits that make `n`.
unfoldable pub read_digits : Bytes → ℕ → ℕ × Bytes
read_digits [] n = (n, [])
read_digits (c ∷ s) n = elim (is_digit c) [
  | true ↦ read_digits s (n * 10 + (c - b'0'))
  | false ↦ (n, c ∷ s)
]

read_digit_step :
    (d n : ℕ) (s : Bytes) → d < 10 → read_digits ((b'0' + d) ∷ s) n ≡ read_digits s (n * 10 + d)
unfolding read_digits
read_digit_step d n s h = ground arith

read_digits-digits_from :
    (f n : ℕ) (out : Bytes) → n < f → read_digits (digits_from f n out) 0 ≡ read_digits out n
unfolding digits_from
read_digits-digits_from zero n out h = absurd (omega arith)
read_digits-digits_from (suc f) n out h = elim (Bool-cases (ltb n 10)) [
  | inl small ↦ ground (arith, read_digit_step n 0 out)
  | inr large ↦ ground (
    arith,
    read_digits-digits_from f (n / 10) ((b'0' + n % 10) ∷ out),
    read_digit_step (n % 10) (n / 10) out,
  )
]

digits_from-append :
    (f n : ℕ) (out rest : Bytes) → digits_from f n out ++ rest ≡ digits_from f n (out ++ rest)
unfolding digits_from
digits_from-append zero n out rest = refl
digits_from-append (suc f) n out rest =
    ground (arith, digits_from-append f (n / 10) ((b'0' + n % 10) ∷ out) rest)

-- A printed number is read back, and the reader stops at the text behind it.
pub read_digits-print_number :
    (n : ℕ) (rest : Bytes) → read_digits (print_number n ++ rest) 0 ≡ read_digits rest n
unfolding print_number
read_digits-print_number n rest =
    ap (λ s. read_digits s 0) (digits_from-append (suc n) n [] rest)
    ∙ read_digits-digits_from (suc n) n rest (omega arith)

digits_from_head :
    (f n : ℕ) (out : Bytes)
    → n < f
    → (c : ℕ) × (s : Bytes) × (digits_from f n out ≡ c ∷ s) × (is_digit c ≡ true)
unfolding digits_from
digits_from_head zero n out h = absurd (omega arith)
digits_from_head (suc f) n out h = elim (Bool-cases (ltb n 10)) [
  | inl small ↦ (b'0' + n, out, ground arith, ground arith)
  | inr large ↦
      let (c, s, e, digit) = digits_from_head f (n / 10) ((b'0' + n % 10) ∷ out) (ground arith) in
      (c, s, ground arith, digit)
]

-- A printed number begins with a digit.
pub print_number_head :
    (n : ℕ) → (c : ℕ) × (s : Bytes) × (print_number n ≡ c ∷ s) × (is_digit c ≡ true)
unfolding print_number
print_number_head n = digits_from_head (suc n) n [] (omega arith)

digits_from_one :
    (f n : ℕ) (out : Bytes) → n < f → n < 10 → length (digits_from f n out) ≡ suc (length out)
unfolding digits_from
digits_from_one zero n out h k = absurd (omega arith)
digits_from_one (suc f) n out h k = ground arith

digits_from_two :
    (f n : ℕ) (out : Bytes) → n < f → n < 100 → length (digits_from f n out) ≤ 2 + length out
unfolding digits_from
digits_from_two zero n out h k = absurd (omega arith)
digits_from_two (suc f) n out h k = elim (Bool-cases (ltb n 10)) [
  | inl small ↦ ground arith
  | inr large ↦ ground (arith, digits_from_one f (n / 10) ((b'0' + n % 10) ∷ out))
]

digits_from_three :
    (f n : ℕ) (out : Bytes) → n < f → n < 1000 → length (digits_from f n out) ≤ 3 + length out
unfolding digits_from
digits_from_three zero n out h k = absurd (omega arith)
digits_from_three (suc f) n out h k = elim (Bool-cases (ltb n 10)) [
  | inl small ↦ ground arith
  | inr large ↦ ground (arith, digits_from_two f (n / 10) ((b'0' + n % 10) ∷ out))
]

-- A number below a thousand has at most three digits.
pub length-print_number : (n : ℕ) → n < 1000 → length (print_number n) ≤ 3
unfolding print_number
length-print_number n h = digits_from_three (suc n) n [] (omega arith) h
