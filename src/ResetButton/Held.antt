-- ===== src/ResetButton/Held.antt =====
-- When a held button resets the device, and what follows (esp32/target/src/main.cpp).
use ray_z.Events.{DmEvent, evt_factory_reset}
use ray_z.HttpApi.{Network, wifi_manager_factory_reset}
use ray_z.NvsStore.{Nvs, as_text, erase_namespace, read_str}
use ray_z.NvsStore.Stored.{erase_namespace-view, read_str-view}
use ray_z.Prelude.{
  Bool, Bool-cases, List, [], arith, inl, inr, ltb, suc, true, zero, ℕ, ◌&&◌, ◌*◌, ◌+◌, ◌↔◌, ◌∷◌,
  ◌≡◌, ◌≤◌, ap, false, leb, none, refl, some, ◌%◌, ◌++◌, ◌/◌, ◌<◌, ◌∙◌, ◌≢◌, sym,
}
use ray_z.ResetButton.{hold_loop, reset_button_round}
use ray_z.Wifi.{wifi_max_ssid_len}
use ray_z.Wifi.Provision.{access_point, key_ssid, wifi_evaluate_boot_mode, wifi_ns}

-- The button is down in `n` readings from the reading `i` on.
abbrev pub IsDown : (ℕ → Bool) → ℕ → ℕ → Type 0
IsDown down i zero = Unit {0}
IsDown down i (suc n) = (down i ≡ true) × IsDown down (suc i) n

-- Events of progress, between 1 and 100 per cent.
abbrev pub AreProgress : List DmEvent → Type 0
AreProgress [] = Unit {0}
AreProgress (e ∷ es) = ((p : ℕ) × (e ≡ evt_factory_reset p) × (1 ≤ p) × (p ≤ 100)) × AreProgress es

hold_loop_on :
    (k : ℕ) (down : ℕ → Bool) (i held : ℕ)
    → down i ≡ true
    → held < 3000
    → let (events, last) = hold_loop k down (suc i) (held + 50) in
      hold_loop (suc k) down i held
      ≡ (evt_factory_reset ((held + 50) * 100 / 3000 % 256) ∷ events, last)
unfolding hold_loop
hold_loop_on k down i held pressed early =
    let on : (down i && ltb held 3000) ≡ true = ground arith in rw on refl

hold_loop_off :
    (k : ℕ) (down : ℕ → Bool) (i held : ℕ)
    → (down i && ltb held 3000) ≡ false
    → hold_loop (suc k) down i held ≡ ([], held)
unfolding hold_loop
hold_loop_off k down i held off = rw off refl

hold_loop_none : (down : ℕ → Bool) (i held : ℕ) → AreProgress (hold_loop 0 down i held).0
unfolding hold_loop
hold_loop_none down i held = tt

-- With a round for each of the `n` readings that are missing and one more, the loop ends by itself,
-- after 3 s exactly if the button is down in all of them.
hold_loop_iff :
    (n : ℕ) (down : ℕ → Bool) (i held : ℕ)
    → held + 50 * n ≡ 3000
    → ((3000 ≤ (hold_loop (suc n) down i held).1) ↔ IsDown down i n)
hold_loop_iff zero down i held h =
    rw (hold_loop_off zero down i held (ground arith)) ((λ k. tt), λ k. omega arith)
hold_loop_iff (suc n) down i held h =
    let (there, back) = hold_loop_iff n down (suc i) (held + 50) (omega arith) in
    elim (Bool-cases (down i)) [
      | inl pressed ↦
          rw (hold_loop_on (suc n) down i held pressed (omega arith))
            ((λ k. (pressed, there k)), λ k. back k.1)
      | inr released ↦
          rw (hold_loop_off (suc n) down i held (rw released refl))
            ((λ k. absurd (omega arith)), λ k. absurd (ground arith))
    ]

hold_loop-AreProgress :
    (k m : ℕ) (down : ℕ → Bool) (i : ℕ) → AreProgress (hold_loop k down i (50 * m)).0
hold_loop-AreProgress zero m down i = hold_loop_none down i (50 * m)
hold_loop-AreProgress (suc k) m down i = elim (Bool-cases (down i && ltb (50 * m) 3000)) [
  | inr off ↦ rw (hold_loop_off k down i (50 * m) off) tt
  | inl on ↦
      let early : m < 60 = ground arith in
      let next : 50 * m + 50 ≡ 50 * suc m = omega arith in
      rw (hold_loop_on k down i (50 * m) (ground arith) (omega arith)) (
        ((50 * m + 50) * 100 / 3000 % 256, refl, omega arith, omega arith),
        rw next (hold_loop-AreProgress k (suc m) down (suc i)),
      )
]

module _ (nvs : Nvs) where
  open nvs use {Flash, view}

  -- An erased namespace has no credentials.
  boot-erased :
      (f : Flash)
      → (erase_namespace nvs wifi_ns f).0 ≡ true
      → wifi_evaluate_boot_mode nvs (erase_namespace nvs wifi_ns f).1 ≡ access_point
  unfolding wifi_evaluate_boot_mode
  boot-erased f ok =
      let f' = (erase_namespace nvs wifi_ns f).1 in
      let gone : read_str nvs wifi_ns key_ssid wifi_max_ssid_len f' ≡ none =
        read_str-view nvs wifi_ns key_ssid wifi_max_ssid_len f'
        ∙ ap (as_text wifi_max_ssid_len) (erase_namespace-view nvs wifi_ns key_ssid f ok) in
      ground (arith, gone)

  -- A round of the monitor resets the device exactly if the button is down in 61 readings in a row,
  -- which are 3 s; if the flash reports no error, the device then starts as an access point. The
  -- progress that is shown is between 1 and 100 per cent, and back to 0 if the button is released
  -- earlier.
  pub reset_button_round_lem :
      (down : ℕ → Bool) (f : Flash) (net : Network)
      → let (events, after) = reset_button_round nvs down f net in
        ((after ≢ none) ↔ IsDown down 0 61)
        × ((f' : Flash) (net' : Network)
            → after ≡ some (f', net')
            → (erase_namespace nvs wifi_ns f).0 ≡ true
            → wifi_evaluate_boot_mode nvs f' ≡ access_point)
        × (after ≢ none → AreProgress events)
        × (after ≡ none
            → down 0 ≡ true
            → (shown : List DmEvent) × (events ≡ shown ++ (evt_factory_reset 0 ∷ []))
              × AreProgress shown)
  unfolding reset_button_round wifi_manager_factory_reset
  reset_button_round_lem down f net =
      let (there, back) = hold_loop_iff 60 down 1 0 refl in
      let (events, held) = hold_loop 61 down 1 0 in
      let shown : AreProgress events = hold_loop-AreProgress 61 0 down 1 in
      elim (Bool-cases (down 0)) [
        | inr released ↦ rw released (
          ((λ h. absurd (h refl)), λ d. absurd cc),
          (λ f' net' e. absurd cc),
          (λ h. absurd (h refl)),
          (λ h pressed. absurd cc),
        )
        | inl pressed ↦ elim (Bool-cases (leb 3000 held)) [
          | inl long ↦
              let full : 3000 ≤ held = ground arith in
              rw (pressed, long)
                (
                  ((λ h. (refl, there full)), λ d e. cc),
                  (λ f' net' e ok.
                      let same : (erase_namespace nvs wifi_ns f).1 ≡ f' = cc in
                      ap (wifi_evaluate_boot_mode nvs) (sym same) ∙ boot-erased f ok),
                  (λ h. shown),
                  (λ h. absurd cc),
                )
          | inr brief ↦
              rw (pressed, brief)
                (
                  ((λ h. absurd (h refl)), λ d. absurd (ground (arith, back d.1, brief))),
                  (λ f' net' e. absurd cc),
                  (λ h. absurd (h refl)),
                  (λ h k. (events, refl, shown)),
                )
        ]
      ]
