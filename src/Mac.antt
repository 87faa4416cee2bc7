-- ===== src/Mac.antt =====
-- MAC addresses as text: `parse_mac_str` and the format of `log_mac`, esp32/shared/src/espnow_comm.cpp.
-- An address is the list of its bytes. `sscanf` is that of C: `%x` skips spaces and takes a sign and
-- a prefix `0x`, and a number too large for 32 bits reads as the largest one.
pub mod Print
use ray_z.Prelude.{
  Bool, Bytes, Option, [], false, if◌then◌else◌, leb, ltb, none, some, sub32, suc, true, u8, zero,
  ℕ, ◌%◌, ◌&&◌, ◌*◌, ◌++◌, ◌+◌, ◌-◌, ◌/◌, ◌==◌, ◌>>=◌, ◌^◌, ◌||◌, ◌∷◌,
}

abbrev pub is_space : ℕ → Bool
is_space c = c == b' ' || (leb 9 c && leb c 13)

unfoldable pub skip_space : Bytes → Bytes
skip_space [] = []
skip_space (c ∷ s) = elim (is_space c) [ true ↦ skip_space s | false ↦ c ∷ s ]

unfoldable pub hex_value : ℕ → Option ℕ
hex_value c =
    if leb b'0' c && leb c b'9'
    then some (c - b'0')
    else if leb b'a' c && leb c b'f'
    then some (c - b'a' + 10)
    else if leb b'A' c && leb c b'F'
    then some (c - b'A' + 10)
    else none

-- The digits at the beginning, behind those that make `n`.
unfoldable pub scan_digits : Bytes → ℕ → ℕ × Bytes
scan_digits [] n = (n, [])
scan_digits (c ∷ s) n = elim (hex_value c) [
  | none ↦ (n, c ∷ s)
  | some d ↦ scan_digits s (n * 16 + d)
]

unfoldable pub skip_sign : Bytes → Bool × Bytes
skip_sign [] = (false, [])
skip_sign (c ∷ s) =
    if c == b'-' then (true, s) else if c == b'+' then (false, s) else (false, c ∷ s)

unfoldable pub skip_0x : Bytes → Bytes
skip_0x [] = []
skip_0x (c ∷ []) = c ∷ []
skip_0x (c ∷ d ∷ s) = if c == b'0' && (d == b'x' || d == b'X') then s else c ∷ d ∷ s

-- At least one digit is needed.
unfoldable pub scan_number : Bytes → Option (ℕ × Bytes)
scan_number [] = none
scan_number (c ∷ s) = elim (hex_value c) [ none ↦ none | some d ↦ some (scan_digits s d) ]

abbrev pub to_unsigned : Bool → ℕ → ℕ
to_unsigned negative n = if ltb n (2 ^ 32) then if negative then sub32 0 n else n else 2 ^ 32 - 1

-- `%x`
unfoldable pub scan_x : Bytes → Option (ℕ × Bytes)
scan_x s =
    let (negative, unsigned) = skip_sign (skip_space s) in
    elim (scan_number (skip_0x unsigned)) [
      | none ↦ none
      | some (n, rest) ↦ some (to_unsigned negative n, rest)
    ]

-- Any other character of the format.
unfoldable pub scan_char : ℕ → Bytes → Option Bytes
scan_char x [] = none
scan_char x (c ∷ s) = if c == x then some s else none

-- `n + 1` numbers with `sep` between them.
unfoldable pub scan_list : ℕ → ℕ → Bytes → Option Bytes
scan_list zero sep s = do (n, _) ← scan_x s; some (u8 n ∷ [])
scan_list (suc k) sep s = do
  (n, r) ← scan_x s
  r1 ← scan_char sep r
  ns ← scan_list k sep r1
  some (u8 n ∷ ns)

unfoldable pub parse_mac_str : Bytes → Option Bytes
parse_mac_str s = elim (scan_list 5 b':' s) [ some mac ↦ some mac | none ↦ scan_list 5 b'-' s ]

-- `%02X`
abbrev pub hex_digit : ℕ → ℕ
hex_digit d = if ltb d 10 then b'0' + d else b'A' + (d - 10)

unfoldable pub print_byte : ℕ → Bytes
print_byte b = hex_digit (b / 16) ∷ hex_digit (b % 16) ∷ []

-- The bytes in hexadecimal with `:` between them.
unfoldable pub print_mac : Bytes → Bytes
print_mac [] = []
print_mac (b ∷ []) = print_byte b
print_mac (b ∷ c ∷ bs) = print_byte b ++ (b':' ∷ print_mac (c ∷ bs))
