-- ===== src/Wifi/Provision/Search.antt =====
-- What `strstr` and `strchr` find in the body of a form (esp32/shared/src/wifi_http.cpp).
use ray_z.Prelude.{
  Bytes, [], arith, refl, some, ℕ, ◌++◌, ◌∙◌, ◌∷◌, ◌≡◌, ◌≢◌, none, strip_prefix,
  strip_prefix-append,
}
use ray_z.Wifi.Provision.{c_text, find_after, until_amp}

-- None of the bytes is `c`.
abbrev pub Lacks : ℕ → Bytes → Type 0
Lacks c [] = Unit {0}
Lacks c (a ∷ s) = (a ≢ c) × Lacks c s

pub find_after-skip :
    (k : ℕ) (key : Bytes) (c : ℕ) (s : Bytes)
    → k ≢ c
    → find_after (k ∷ key) (c ∷ s) ≡ find_after (k ∷ key) s
unfolding find_after
find_after-skip k key c s h = ground arith

pub find_after-append : (k : ℕ) (key s : Bytes) → find_after (k ∷ key) ((k ∷ key) ++ s) ≡ some s
unfolding find_after
find_after-append k key s = rw (strip_prefix-append (k ∷ key) s, find_after)

-- The key cannot start in a text without `=` that is followed by `&` and the key: its `=` would
-- stand at another byte.
strip_prefix-behind :
    (a b c d : ℕ) (s rest : Bytes)
    → Lacks b'=' s
    → (b'=' ≢ a) × (b'=' ≢ b) × (b'=' ≢ c) × (b'&' ≢ a)
    → strip_prefix (b ∷ c ∷ d ∷ b'=' ∷ []) (s ++ (b'&' ∷ a ∷ b ∷ c ∷ d ∷ b'=' ∷ rest)) ≡ none
unfolding strip_prefix
strip_prefix-behind a b c d [] rest h key = ground arith
strip_prefix-behind a b c d (x ∷ []) rest h key = ground arith
strip_prefix-behind a b c d (x ∷ y ∷ []) rest h key = ground arith
strip_prefix-behind a b c d (x ∷ y ∷ z ∷ []) rest h key = ground arith
strip_prefix-behind a b c d (x ∷ y ∷ z ∷ w ∷ s) rest h key = ground arith

-- A key of four bytes and `=`, behind a text without `=` and an `&`.
pub find_after-behind :
    (a b c d : ℕ) (s rest : Bytes)
    → Lacks b'=' s
    → (b'=' ≢ a) × (b'=' ≢ b) × (b'=' ≢ c) × (b'&' ≢ a)
    → find_after (a ∷ b ∷ c ∷ d ∷ b'=' ∷ []) (s ++ (b'&' ∷ a ∷ b ∷ c ∷ d ∷ b'=' ∷ rest)) ≡ some rest
unfolding find_after
find_after-behind a b c d [] rest h key =
    find_after-skip a (b ∷ c ∷ d ∷ b'=' ∷ []) b'&' (a ∷ b ∷ c ∷ d ∷ b'=' ∷ rest) (omega arith)
    ∙ find_after-append a (b ∷ c ∷ d ∷ b'=' ∷ []) rest
find_after-behind a b c d (x ∷ s) rest h key =
    ground
      (arith, strip_prefix-behind a b c d s rest h.1 key, find_after-behind a b c d s rest h.1 key)

pub until_amp-append : (s rest : Bytes) → Lacks b'&' s → until_amp (s ++ (b'&' ∷ rest)) ≡ s
unfolding until_amp
until_amp-append [] rest h = refl
until_amp-append (c ∷ s) rest h = ground (arith, until_amp-append s rest)

pub until_amp_all : (s : Bytes) → Lacks b'&' s → until_amp s ≡ s
unfolding until_amp
until_amp_all [] h = refl
until_amp_all (c ∷ s) h = ground (arith, until_amp_all s)

pub c_text_all : (s : Bytes) → Lacks 0 s → c_text s ≡ s
unfolding c_text
c_text_all [] h = refl
c_text_all (c ∷ s) h = ground (arith, c_text_all s)

pub Lacks-append : (c : ℕ) (s t : Bytes) → Lacks c s → Lacks c t → Lacks c (s ++ t)
Lacks-append c [] t h k = k
Lacks-append c (a ∷ s) t h k = (h.0, Lacks-append c s t h.1 k)
