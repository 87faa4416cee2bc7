-- ===== src/Wifi/Provision/Encoded.antt =====
-- The form as a browser sends it, `application/x-www-form-urlencoded`: what is stored by
-- esp32/shared/src/wifi_http.cpp, which does not decode it.
use ray_z.NvsStore.{Nvs}
use ray_z.Prelude.{
  Bool, Bytes, [], arith, if◌then◌else◌, inl, inr, leb, length, ltb, refl, true, ℕ, ◌%◌, ◌&&◌, ◌++◌,
  ◌+◌, ◌-◌, ◌/◌, ◌<◌, ◌==◌, ◌||◌, ◌↔◌, ◌∷◌, ◌≡◌, ◌≤◌, ◌⊎◌, ==-cases, ==_ne, Bool-cases, ap, false,
  some, ap₂, take_all, ◌∙◌, AreBytes,
}
use ray_z.Wifi.Provision.{boot_provisioning, config_post_handler, station, wifi_evaluate_boot_mode}
use ray_z.Wifi.Provision.Search.{Lacks, Lacks-append}
use ray_z.Wifi.Provision.Stored.{IsValue, form, provisioned, FormStored}

within : ℕ → ℕ → ℕ → Bool
within lo hi c = leb lo c && leb c hi

-- Letters, digits and `*`, `-`, `.`, `_` stand for themselves.
unfoldable pub is_plain : ℕ → Bool
unfolding within
is_plain c =
    within b'a' b'z' c
    || within b'A' b'Z' c
    || within b'0' b'9' c
    || c == b'*'
    || c == b'-'
    || c == b'.'
    || c == b'_'

abbrev hex : ℕ → ℕ
hex d = if ltb d 10 then b'0' + d else b'A' + (d - 10)

-- A space is `+`, any other byte `%` and two hexadecimal digits.
unfoldable pub encode_byte : ℕ → Bytes
unfolding is_plain
encode_byte c =
    if is_plain c
    then c ∷ []
    else if c == b' '
    then b'+' ∷ []
    else b'%' ∷ hex (c / 16) ∷ hex (c % 16) ∷ []

unfoldable pub form_encode : Bytes → Bytes
unfolding encode_byte
form_encode [] = []
form_encode (c ∷ s) = encode_byte c ++ form_encode s

abbrev pub ArePlain : Bytes → Type 0
ArePlain [] = Unit {0}
ArePlain (c ∷ s) = (is_plain c ≡ true) × ArePlain s

-- A byte with a code that no encoded byte has.
encode_byte-Lacks :
    (x c : ℕ) → c < 256 → (x ≡ b'&') ⊎ (x ≡ b'=') ⊎ (x ≡ 0) → Lacks x (encode_byte c)
unfolding encode_byte
encode_byte-Lacks x c small h = ground arith

form_encode-Lacks :
    (x : ℕ) (s : Bytes) → AreBytes s → (x ≡ b'&') ⊎ (x ≡ b'=') ⊎ (x ≡ 0) → Lacks x (form_encode s)
unfolding form_encode
form_encode-Lacks x [] v h = tt
form_encode-Lacks x (c ∷ s) v h =
    Lacks-append x (encode_byte c) (form_encode s) (encode_byte-Lacks x c v.0 h)
      (form_encode-Lacks x s v.1 h)

form_encode-IsValue : (s : Bytes) → AreBytes s → IsValue (form_encode s)
form_encode-IsValue s v = record {
  no_amp = form_encode-Lacks b'&' s v (inl refl);
  no_eq = form_encode-Lacks b'=' s v (inr (inl refl));
  no_nul = form_encode-Lacks 0 s v (inr (inr refl));
}

-- The three kinds of encoded bytes.
encode_byte-cases :
    (c : ℕ)
    → ((is_plain c ≡ true) × (encode_byte c ≡ c ∷ []))
      ⊎ ((is_plain c ≡ false)
          × (((c ≡ b' ') × (encode_byte c ≡ b'+' ∷ []))
              ⊎ ((a : ℕ) × (b : ℕ) × (encode_byte c ≡ b'%' ∷ a ∷ b ∷ []))))
unfolding encode_byte
encode_byte-cases c = elim (Bool-cases (is_plain c)) [
  | inl plain ↦ inl (plain, rw plain refl)
  | inr special ↦ inr (
    special,
    elim (==-cases c b' ') [
      | inl space ↦ inl (space, rw space refl)
      | inr escaped ↦ inr (hex (c / 16), hex (c % 16), rw (special, ==_ne c b' ' escaped) refl)
    ],
  )
]

le-length-form_encode : (s : Bytes) → length s ≤ length (form_encode s)
unfolding form_encode
le-length-form_encode [] = omega arith
le-length-form_encode (c ∷ s) = elim (encode_byte-cases c) [
  | inl (plain, e) ↦ rw e (omega (arith, le-length-form_encode s))
  | inr (special, inl (space, e)) ↦ rw e (omega (arith, le-length-form_encode s))
  | inr (special, inr (a, b, e)) ↦ rw e (omega (arith, le-length-form_encode s))
]

-- A text is its own encoding exactly if all its bytes are plain.
form_encode_iff : (s : Bytes) → (form_encode s ≡ s) ↔ ArePlain s
unfolding form_encode
form_encode_iff [] = (λ e. tt, λ p. refl)
form_encode_iff (c ∷ s) = elim (encode_byte-cases c) [
  | inl (plain, e) ↦
      rw e
        (λ h. (plain, (form_encode_iff s).0 (cc)), λ p. ap (λ t. c ∷ t) ((form_encode_iff s).1 p.1))
  | inr (special, inl (space, e)) ↦ rw e (λ h. absurd (ground arith), λ p. cc)
  | inr (special, inr (a, b, e)) ↦
      rw e (λ h. absurd (omega (arith, ap length h, le-length-form_encode s)), λ p. cc)
]

-- Texts of any bytes that a browser submits, with an SSID that is not empty, whose encodings fit,
-- reach the station exactly if all bytes of the SSID and the password are letters, digits or *, -,
-- ., _, if none of the writes that store the form reports an error: the form is not decoded.
pub station_iff :
    (nvs : Nvs) (s p n : Bytes) (f : nvs.Flash)
    → AreBytes s
    → AreBytes p
    → AreBytes n
    → 1 ≤ length s
    → length (form_encode s) ≤ 31
    → length (form_encode p) ≤ 63
    → length (form (form_encode s) (form_encode p) (form_encode n)) ≤ 255
    → FormStored nvs (form (form_encode s) (form_encode p) (form_encode n)) f
    → let (outcome, f') =
        config_post_handler nvs boot_provisioning
          (some (form (form_encode s) (form_encode p) (form_encode n)))
          f in
      (wifi_evaluate_boot_mode nvs f' ≡ station s p) ↔ (ArePlain s × ArePlain p)
station_iff nvs s p n f v w u full short_s short_p fits ok =
    let (_, started) =
      provisioned nvs (form_encode s) (form_encode p) (form_encode n) f (form_encode-IsValue s v)
        (form_encode-IsValue p w) (form_encode-IsValue n u) (omega (arith, le-length-form_encode s))
        fits ok in
    let exact =
      started
      ∙ ap₂ station (take_all 31 (form_encode s) short_s) (take_all 63 (form_encode p) short_p) in
    (
      λ h. ((form_encode_iff s).0 (cc (exact, h)), (form_encode_iff p).0 (cc (exact, h))),
      λ plain. exact ∙ ap₂ station ((form_encode_iff s).1 plain.0) ((form_encode_iff p).1 plain.1),
    )
