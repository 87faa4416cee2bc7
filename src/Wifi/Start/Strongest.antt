-- ===== src/Wifi/Start/Strongest.antt =====
-- Which access point esp32/shared/src/wifi_core.cpp joins.
use ray_z.Prelude.{
  Bool-cases, List, [], ap, false, inl, inr, refl, true, ◌++◌, ◌∷◌, ◌≡◌, none, some, sym, take, ◌↔◌,
  ◌∙◌, ◌⊎◌,
}
use ray_z.Prelude.Int.{ltbℤ, ltbℤ_skip, ltbℤ_trans}
use ray_z.Wifi.Start.{ApRecord, strongest, find_best_ap}

-- Every record is weaker than `r`.
abbrev pub AllBelow : ApRecord → List ApRecord → Type 0
AllBelow r [] = Unit {0}
AllBelow r (x ∷ xs) = (ltbℤ x.rssi r.rssi ≡ true) × AllBelow r xs

-- No record is stronger than `r`.
abbrev pub NoneAbove : ApRecord → List ApRecord → Type 0
NoneAbove r [] = Unit {0}
NoneAbove r (x ∷ xs) = (ltbℤ r.rssi x.rssi ≡ false) × NoneAbove r xs

-- `r` stands in the list, behind weaker records only, and before no stronger one.
abbrev pub IsFirstStrongest : ApRecord → List ApRecord → Type 0
IsFirstStrongest r rs =
    (before : List ApRecord) × (after : List ApRecord) × (rs ≡ before ++ (r ∷ after))
    × AllBelow r before
    × NoneAbove r after

-- The loop from `best` ends with `best` itself, or with a stronger record of the list.
abbrev IsChoice : ApRecord → ApRecord → List ApRecord → Type 0
IsChoice r best rs =
    ((r ≡ best) × NoneAbove r rs)
    ⊎ ((before : List ApRecord) × (after : List ApRecord) × (rs ≡ before ++ (r ∷ after))
        × AllBelow r (best ∷ before)
        × NoneAbove r after)

IsChoice-up :
    (r best x : ApRecord) (xs : List ApRecord)
    → ltbℤ best.rssi x.rssi ≡ true
    → IsChoice r x xs
    → IsChoice r best (x ∷ xs)
IsChoice-up r best x xs up (inl (same, above)) =
    inr
      ([], xs, ap (λ t. t ∷ xs) (sym same), (ap (λ t. ltbℤ best.rssi t.rssi) same ∙ up, tt), above)
IsChoice-up r best x xs up (inr (before, after, e, below, above)) = inr (
  x ∷ before,
  after,
  ap (λ t. x ∷ t) e,
  (ltbℤ_trans best.rssi x.rssi r.rssi up below.0, below),
  above,
)

IsChoice-keep :
    (r best x : ApRecord) (xs : List ApRecord)
    → ltbℤ best.rssi x.rssi ≡ false
    → IsChoice r best xs
    → IsChoice r best (x ∷ xs)
IsChoice-keep r best x xs keep (inl (same, above)) =
    inl (same, (ap (λ t. ltbℤ t.rssi x.rssi) same ∙ keep, above))
IsChoice-keep r best x xs keep (inr (before, after, e, below, above)) = inr (
  x ∷ before,
  after,
  ap (λ t. x ∷ t) e,
  (below.0, (ltbℤ_skip best.rssi x.rssi r.rssi keep below.0, below.1)),
  above,
)

strongest-IsChoice :
    (r best : ApRecord) (rs : List ApRecord) → strongest best rs ≡ r → IsChoice r best rs
unfolding strongest
strongest-IsChoice r best [] e = inl (sym e, tt)
strongest-IsChoice r best (x ∷ xs) e = elim (Bool-cases (ltbℤ best.rssi x.rssi)) [
  | inl up ↦
      let next : strongest x xs ≡ r = rw (sym e, up) refl in
      IsChoice-up r best x xs up (strongest-IsChoice r x xs next)
  | inr keep ↦
      let next : strongest best xs ≡ r = rw (sym e, keep) refl in
      IsChoice-keep r best x xs keep (strongest-IsChoice r best xs next)
]

IsChoice-IsFirstStrongest :
    (r best : ApRecord) (rs : List ApRecord) → IsChoice r best rs → IsFirstStrongest r (best ∷ rs)
IsChoice-IsFirstStrongest r best rs (inl (same, above)) =
    ([], rs, ap (λ t. t ∷ rs) (sym same), tt, above)
IsChoice-IsFirstStrongest r best rs (inr (before, after, e, below, above)) =
    (best ∷ before, after, ap (λ t. best ∷ t) e, below, above)

-- A scan that sees at least one access point gives one of the first eight, with only weaker ones
-- before it and no stronger one behind it there; a scan that fails or sees none gives none.
pub find_best_ap_lem :
    (found : List ApRecord)
    → (find_best_ap none ≡ none)
      × (find_best_ap (some found) ≡ none ↔ found ≡ [])
      × ((r : ApRecord) → find_best_ap (some found) ≡ some r → IsFirstStrongest r (take 8 found))
unfolding find_best_ap
find_best_ap_lem [] = (refl, (λ h. refl, λ h. refl), λ r e. absurd cc)
find_best_ap_lem (x ∷ xs) = (
  refl,
  (λ h. absurd cc, λ h. absurd cc),
  λ r e. IsChoice-IsFirstStrongest r x (take 7 xs) (strongest-IsChoice r x (take 7 xs) cc),
)
