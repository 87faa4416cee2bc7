-- ===== src/Mac/Print.antt =====
-- A printed MAC address is read back (esp32/shared/src/espnow_comm.cpp).
use mathlib.Core.List.{append-nil}
use ray_z.Mac.{
  hex_digit, hex_value, scan_digits, scan_x, skip_0x, skip_sign, skip_space, parse_mac_str,
  print_byte, print_mac, scan_list, scan_number, scan_char,
}
use ray_z.Prelude.{
  Bytes, [], arith, none, refl, some, ℕ, ◌*◌, ◌+◌, ◌<◌, ◌∷◌, ◌≡◌, ◌≤◌, ap, false, length, suc, zero,
  ◌%◌, ◌++◌, ◌/◌, ◌∙◌, AreBytes, ◌≢◌,
}

-- The text does not go on with a digit.
abbrev pub Ends : Bytes → Type 0
Ends [] = Unit {0}
Ends (c ∷ s) = hex_value c ≡ none

hex_value-hex_digit : (d : ℕ) → d < 16 → hex_value (hex_digit d) ≡ some d
unfolding hex_value
hex_value-hex_digit d h = ground arith

hex_digit_bounds : (d : ℕ) → d < 16 → (b'0' ≤ hex_digit d) × (hex_digit d ≤ b'F')
hex_digit_bounds d h = ground arith

scan_digits_end : (rest : Bytes) (n : ℕ) → Ends rest → scan_digits rest n ≡ (n, rest)
unfolding scan_digits
scan_digits_end [] n h = refl
scan_digits_end (c ∷ s) n h = ground (arith, h)

-- Characters from `0` to `F` are no spaces, no signs and no part of a prefix.
skip_space_digit : (c : ℕ) (s : Bytes) → b'0' ≤ c → c ≤ b'F' → skip_space (c ∷ s) ≡ c ∷ s
unfolding skip_space
skip_space_digit c s low high = ground arith

skip_sign_digit : (c : ℕ) (s : Bytes) → b'0' ≤ c → c ≤ b'F' → skip_sign (c ∷ s) ≡ (false, c ∷ s)
unfolding skip_sign
skip_sign_digit c s low high = ground arith

skip_0x_digits : (c d : ℕ) (s : Bytes) → d ≤ b'F' → skip_0x (c ∷ d ∷ s) ≡ c ∷ d ∷ s
unfolding skip_0x
skip_0x_digits c d s high = ground arith

scan_number_two :
    (h l : ℕ) (rest : Bytes)
    → h < 16
    → l < 16
    → Ends rest
    → scan_number (hex_digit h ∷ hex_digit l ∷ rest) ≡ some (h * 16 + l, rest)
unfolding scan_number scan_digits
scan_number_two h l rest small_h small_l ends = ground (
  arith,
  hex_value-hex_digit h small_h,
  hex_value-hex_digit l small_l,
  scan_digits_end rest (h * 16 + l) ends,
)

-- Two digits, read where the text goes on with something else.
scan_x_two :
    (h l : ℕ) (rest : Bytes)
    → h < 16
    → l < 16
    → Ends rest
    → scan_x (hex_digit h ∷ hex_digit l ∷ rest) ≡ some (h * 16 + l, rest)
unfolding scan_x
scan_x_two h l rest small_h small_l ends =
    let (low, high) = hex_digit_bounds h small_h in
    let (_, high_l) = hex_digit_bounds l small_l in
    ground (
      arith,
      skip_space_digit (hex_digit h) (hex_digit l ∷ rest) low high,
      skip_sign_digit (hex_digit h) (hex_digit l ∷ rest) low high,
      skip_0x_digits (hex_digit h) (hex_digit l) rest high_l,
      scan_number_two h l rest small_h small_l ends,
    )

scan_x-print_byte :
    (b : ℕ) (rest : Bytes) → b < 256 → Ends rest → scan_x (print_byte b ++ rest) ≡ some (b, rest)
unfolding print_byte
scan_x-print_byte b rest small ends =
    scan_x_two (b / 16) (b % 16) rest (omega arith) (omega arith) ends
    ∙ ap (λ n. some (n, rest)) (omega arith)

colon : Ends (b':' ∷ [])
unfolding hex_value
colon = refl

scan_list-print_mac :
    (k : ℕ) (mac : Bytes)
    → length mac ≡ suc k
    → AreBytes mac
    → scan_list k b':' (print_mac mac) ≡ some mac
unfolding scan_list print_mac scan_char
scan_list-print_mac k [] size v = absurd (omega arith)
scan_list-print_mac zero (b ∷ []) size v =
    let alone : scan_x (print_byte b) ≡ some (b, []) =
      rw (append-nil (print_byte b)) at (scan_x-print_byte b [] v.0 tt) in
    ground arith
scan_list-print_mac zero (b ∷ c ∷ bs) size v = absurd (omega arith)
scan_list-print_mac (suc k) (b ∷ []) size v = absurd (omega arith)
scan_list-print_mac (suc k) (b ∷ c ∷ bs) size v = ground (
  arith,
  scan_x-print_byte b (b':' ∷ print_mac (c ∷ bs)) v.0 colon,
  scan_list-print_mac k (c ∷ bs) (omega arith) v.1,
)

-- An address of six bytes, printed in hexadecimal with `:` between them, is read back.
pub parse_mac_str-print_mac :
    (mac : Bytes) → length mac ≡ 6 → AreBytes mac → parse_mac_str (print_mac mac) ≡ some mac
unfolding parse_mac_str
parse_mac_str-print_mac mac size v = ground (arith, scan_list-print_mac 5 mac size v)

first_digit :
    (b : ℕ) (s : Bytes) → b < 256 → skip_space (hex_digit (b / 16) ∷ s) ≡ hex_digit (b / 16) ∷ s
first_digit b s small =
    let (low, high) = hex_digit_bounds (b / 16) (omega arith) in
    skip_space_digit (hex_digit (b / 16)) s low high

pub print_mac-ne : (mac : Bytes) → 1 ≤ length mac → print_mac mac ≢ []
unfolding print_mac print_byte
print_mac-ne [] h e = absurd (omega arith)
print_mac-ne (b ∷ []) h e = cc
print_mac-ne (b ∷ c ∷ mac) h e = cc

-- A printed address does not begin with a space.
pub skip_space-print_mac : (mac : Bytes) → AreBytes mac → skip_space (print_mac mac) ≡ print_mac mac
unfolding print_mac print_byte
skip_space-print_mac [] v = unfold skip_space in refl
skip_space-print_mac (b ∷ []) v = first_digit b (hex_digit (b % 16) ∷ []) v.0
skip_space-print_mac (b ∷ c ∷ mac) v =
    first_digit b (hex_digit (b % 16) ∷ b':' ∷ print_mac (c ∷ mac)) v.0
