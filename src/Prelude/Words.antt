-- ===== src/Prelude/Words.antt =====
-- Fixed-width unsigned words as native numbers, and the millisecond clock.
use Prim.Native.Nat.{ℕ, ◌+◌, ◌-◌, ◌/◌, ◌%◌, ◌^◌}

abbrev pub u8 : ℕ → ℕ
u8 n = n % 2 ^ 8

abbrev pub u16 : ℕ → ℕ
u16 n = n % 2 ^ 16

abbrev pub u32 : ℕ → ℕ
u32 n = n % 2 ^ 32

-- `a - b` on `uint32_t`, for `b` below the modulus.
abbrev pub sub32 : ℕ → ℕ → ℕ
sub32 a b = (a + 2 ^ 32 - b) % 2 ^ 32

-- `(uint32_t)(esp_timer_get_time() / 1000)`: the argument is the timer in microseconds.
abbrev pub now_ms : ℕ → ℕ
now_ms t = u32 (t / 1000)
