-- ===== src/Prelude/Int.antt =====
-- Signed integers over the native numbers, and their conversion to unsigned words.
use Prim.Native.Nat.{ℕ, suc, ◌-◌, ◌*◌, ◌%◌, ◌^◌}
use mathlib.Core.Bool.{Bool, true, false}
use mathlib.Core.Path.{◌≡◌}
use native.Mathlib.Omega.{arith}
use ray_z.Prelude.Tests.{ltb}

-- `negsuc n` is -(n + 1).
pub data ℤ : Type 0 where
  pos : ℕ → ℤ
  negsuc : ℕ → ℤ

-- The conversion of a C integer to an unsigned type of `w` bits, by two's complement.
abbrev pub to_word : ℕ → ℤ → ℕ
to_word w (pos n) = n % 2 ^ w
to_word w (negsuc n) = 2 ^ w - 1 - n % 2 ^ w

-- `k * z` for a positive `k`.
abbrev pub scale : ℕ → ℤ → ℤ
scale k (pos n) = pos (k * n)
scale k (negsuc n) = negsuc (k * suc n - 1)

abbrev pub ltbℤ : ℤ → ℤ → Bool
ltbℤ (pos m) (pos n) = ltb m n
ltbℤ (pos m) (negsuc n) = false
ltbℤ (negsuc m) (pos n) = true
ltbℤ (negsuc m) (negsuc n) = ltb n m

pub ltbℤ_trans : (x y z : ℤ) → ltbℤ x y ≡ true → ltbℤ y z ≡ true → ltbℤ x z ≡ true
ltbℤ_trans (pos a) (pos b) (pos c) = ground arith
ltbℤ_trans (pos a) (pos b) (negsuc c) = ground arith
ltbℤ_trans (pos a) (negsuc b) z = ground arith
ltbℤ_trans (negsuc a) (pos b) (pos c) = ground arith
ltbℤ_trans (negsuc a) (pos b) (negsuc c) = ground arith
ltbℤ_trans (negsuc a) (negsuc b) (pos c) = ground arith
ltbℤ_trans (negsuc a) (negsuc b) (negsuc c) = ground arith

pub ltbℤ_skip : (x y z : ℤ) → ltbℤ x y ≡ false → ltbℤ x z ≡ true → ltbℤ y z ≡ true
ltbℤ_skip (pos a) (pos b) (pos c) = ground arith
ltbℤ_skip (pos a) (pos b) (negsuc c) = ground arith
ltbℤ_skip (pos a) (negsuc b) (pos c) = ground arith
ltbℤ_skip (pos a) (negsuc b) (negsuc c) = ground arith
ltbℤ_skip (negsuc a) (pos b) (pos c) = ground arith
ltbℤ_skip (negsuc a) (pos b) (negsuc c) = ground arith
ltbℤ_skip (negsuc a) (negsuc b) (pos c) = ground arith
ltbℤ_skip (negsuc a) (negsuc b) (negsuc c) = ground arith
