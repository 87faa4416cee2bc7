-- ===== src/EspNow/Tokens.antt =====
-- `strtok` on a list of peers (esp32/shared/src/espnow_comm.cpp).
use mathlib.Core.List.{append_assoc, append-nil}
use ray_z.EspNow.{is_separator, tokens}
use ray_z.Mac.{print_byte, print_mac}
use ray_z.Mac.Print.{print_mac-ne}
use ray_z.Prelude.{
  AreBytes, Bytes, List, [], ap, arith, false, length, map, refl, sym, ℕ, ◌++◌, ◌<◌, ◌∙◌, ◌∷◌, ◌≡◌,
  ◌≢◌, length-append, ◌≤◌,
}

-- A token: not empty, and no separator in it.
abbrev pub NoSeparator : Bytes → Type 0
NoSeparator [] = Unit {0}
NoSeparator (c ∷ s) = (is_separator c ≡ false) × NoSeparator s

abbrev pub AreTokens : List Bytes → Type 0
AreTokens [] = Unit {0}
AreTokens (w ∷ ws) = (w ≢ []) × NoSeparator w × AreTokens ws

-- Texts with commas between them.
unfoldable pub with_commas : List Bytes → Bytes
with_commas [] = []
with_commas (w ∷ []) = w
with_commas (w ∷ v ∷ ws) = w ++ (b',' ∷ with_commas (v ∷ ws))

tokens-append :
    (w rest cur : Bytes) → NoSeparator w → tokens (w ++ rest) cur ≡ tokens rest (cur ++ w)
unfolding tokens
tokens-append [] rest cur h = rw (append-nil cur) refl
tokens-append (c ∷ w) rest cur h =
    ground (arith, tokens-append w rest (cur ++ (c ∷ [])) h.1, append_assoc cur (c ∷ []) w)

tokens_done : (w : Bytes) → w ≢ [] → tokens [] w ≡ w ∷ []
unfolding tokens
tokens_done [] h = absurd (h refl)
tokens_done (a ∷ w) h = refl

tokens_comma : (w s : Bytes) → w ≢ [] → tokens (b',' ∷ s) w ≡ w ∷ tokens s []
unfolding tokens
tokens_comma [] s h = absurd (h refl)
tokens_comma (a ∷ w) s h = refl

pub tokens-with_commas : (ws : List Bytes) → AreTokens ws → tokens (with_commas ws) [] ≡ ws
unfolding with_commas
tokens-with_commas [] v = unfold tokens in refl
tokens-with_commas (w ∷ []) v =
    ap (λ t. tokens t []) (sym (append-nil w)) ∙ tokens-append w [] [] v.1 ∙ tokens_done w v.0
tokens-with_commas (w ∷ u ∷ ws) v =
    tokens-append w (b',' ∷ with_commas (u ∷ ws)) [] v.1
    ∙ tokens_comma w (with_commas (u ∷ ws)) v.0
    ∙ ap (λ t. w ∷ t) (tokens-with_commas (u ∷ ws) v.2)

-- Addresses of six bytes.
abbrev pub AreMacs : List Bytes → Type 0
AreMacs [] = Unit {0}
AreMacs (m ∷ ms) = (length m ≡ 6) × AreBytes m × AreMacs ms

NoSeparator-append : (s t : Bytes) → NoSeparator s → NoSeparator t → NoSeparator (s ++ t)
NoSeparator-append [] t h k = k
NoSeparator-append (c ∷ s) t h k = (h.0, NoSeparator-append s t h.1 k)

print_byte-NoSeparator : (b : ℕ) → b < 256 → NoSeparator (print_byte b)
unfolding print_byte
print_byte-NoSeparator b h = ground arith

print_mac-NoSeparator : (m : Bytes) → AreBytes m → NoSeparator (print_mac m)
unfolding print_mac
print_mac-NoSeparator [] v = tt
print_mac-NoSeparator (b ∷ []) v = print_byte-NoSeparator b v.0
print_mac-NoSeparator (b ∷ c ∷ m) v =
    NoSeparator-append (print_byte b) (b':' ∷ print_mac (c ∷ m)) (print_byte-NoSeparator b v.0)
      (refl, print_mac-NoSeparator (c ∷ m) v.1)

pub print_mac-AreTokens : (ms : List Bytes) → AreMacs ms → AreTokens (map print_mac ms)
print_mac-AreTokens [] v = tt
print_mac-AreTokens (m ∷ ms) v =
    (print_mac-ne m (omega arith), print_mac-NoSeparator m v.1, print_mac-AreTokens ms v.2)

length-ne : (w : Bytes) → w ≢ [] → 1 ≤ length w
length-ne [] h = absurd (h refl)
length-ne (c ∷ w) h = omega arith

pub le-length-with_commas : (ws : List Bytes) → AreTokens ws → length ws ≤ length (with_commas ws)
unfolding with_commas
le-length-with_commas [] v = omega arith
le-length-with_commas (w ∷ []) v = omega (arith, length-ne w v.0)
le-length-with_commas (w ∷ u ∷ ws) v = omega (
  arith,
  length-ne w v.0,
  length-append w (b',' ∷ with_commas (u ∷ ws)),
  le-length-with_commas (u ∷ ws) v.2,
)
