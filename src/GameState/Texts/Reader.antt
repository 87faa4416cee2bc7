-- ===== src/GameState/Texts/Reader.antt =====
-- A reader of flat JSON objects, independent of esp32/shared/src/game_state.cpp, and the printer that
-- it undoes.
use ray_z.GameState.Texts.{bool_text}
use ray_z.Prelude.{
  Bool, Bytes, List, Option, [], arith, codes, false, if◌then◌else◌, is_digit, is_empty, length,
  length-append, none, print_number, print_number_head, read_digits, read_digits-print_number, refl,
  some, strip_prefix, suc, true, zero, ℕ, ◌&&◌, ◌++◌, ◌==◌, ◌>>=◌, ◌∙◌, ◌∷◌, ◌≡◌, ◌≢◌, ◌≤◌,
}

abbrev pub quote : ℕ
quote = 34

pub data Value : Type 0 where
  number_value : ℕ → Value
  bool_value : Bool → Value

unfoldable pub read_key : Bytes → Option (Bytes × Bytes)
read_key [] = none
read_key (c ∷ s) = elim (c == quote) [
  | true ↦ some ([], s)
  | false ↦ elim (read_key s) [ none ↦ none | some (k, r) ↦ some (c ∷ k, r) ]
]

unfoldable pub read_value : Bytes → Option (Value × Bytes)
read_value [] = none
read_value (c ∷ s) =
    if is_digit c
    then (let (n, r) = read_digits (c ∷ s) 0 in some (number_value n, r))
    else elim (strip_prefix (codes "true") (c ∷ s)) [
      | some r ↦ some (bool_value true, r)
      | none ↦ do r ← strip_prefix (codes "false") (c ∷ s); some (bool_value false, r)
    ]

unfoldable pub read_member : Bytes → Option ((Bytes × Value) × Bytes)
read_member s = do
  r ← strip_prefix (codes "\"") s
  (k, r1) ← read_key r
  r2 ← strip_prefix (codes ":") r1
  (v, r3) ← read_value r2
  some ((k, v), r3)

-- Members up to the closing brace, which ends the text; the first argument is the fuel.
unfoldable pub read_members : ℕ → Bytes → Option (List (Bytes × Value))
read_members zero s = none
read_members (suc f) s = elim (read_member s) [
  | none ↦ none
  | some (m, []) ↦ none
  | some (m, c ∷ r) ↦
      if c == b'}' && is_empty r
      then some (m ∷ [])
      else (let more = read_members f r in
          if c == b',' then elim more [ none ↦ none | some ms ↦ some (m ∷ ms) ] else none)
]

unfoldable pub read_object : Bytes → Option (List (Bytes × Value))
read_object s = do r ← strip_prefix (codes "{") s; read_members (length s) r

abbrev pub print_value : Value → Bytes
print_value (number_value n) = print_number n
print_value (bool_value b) = bool_text b

-- Members, each behind a comma but the first, with the closing brace.
unfoldable pub print_members : List (Bytes × Value) → Bytes
print_members [] = b'}' ∷ []
print_members ((k, v) ∷ []) = quote ∷ (k ++ (quote ∷ b':' ∷ (print_value v ++ (b'}' ∷ []))))
print_members ((k, v) ∷ m ∷ ms) =
    quote ∷ (k ++ (quote ∷ b':' ∷ (print_value v ++ (b',' ∷ print_members (m ∷ ms)))))

abbrev pub NoQuote : Bytes → Type 0
NoQuote [] = Unit {0}
NoQuote (c ∷ s) = (c ≢ quote) × NoQuote s

abbrev pub ArePlainKeys : List (Bytes × Value) → Type 0
ArePlainKeys [] = Unit {0}
ArePlainKeys ((k, v) ∷ ms) = NoQuote k × ArePlainKeys ms

read_key-append : (k s : Bytes) → NoQuote k → read_key (k ++ (quote ∷ s)) ≡ some (k, s)
unfolding read_key
read_key-append [] s h = refl
read_key-append (c ∷ k) s h = ground (arith, read_key-append k s h.1)

read_digits_end : (c n : ℕ) (s : Bytes) → is_digit c ≡ false → read_digits (c ∷ s) n ≡ (n, c ∷ s)
unfolding read_digits
read_digits_end c n s h = ground arith

read_value-print_value :
    (v : Value) (c : ℕ) (s : Bytes)
    → is_digit c ≡ false
    → read_value (print_value v ++ (c ∷ s)) ≡ some (v, c ∷ s)
unfolding read_value
read_value-print_value (number_value n) c s h =
    let (d, ds, e, digit) = print_number_head n in
    let all : read_digits (print_number n ++ (c ∷ s)) 0 ≡ (n, c ∷ s) =
      read_digits-print_number n (c ∷ s) ∙ read_digits_end c n s h in
    rw e (ground (arith, rw e at all))
read_value-print_value (bool_value true) c s h = unfold strip_prefix in refl
read_value-print_value (bool_value false) c s h = unfold strip_prefix in refl

read_member-print :
    (k : Bytes) (v : Value) (c : ℕ) (s : Bytes)
    → NoQuote k
    → is_digit c ≡ false
    → read_member (quote ∷ (k ++ (quote ∷ b':' ∷ (print_value v ++ (c ∷ s)))))
      ≡ some ((k, v), c ∷ s)
unfolding read_member strip_prefix
read_member-print k v c s plain stop =
    rw (
      read_key-append k (b':' ∷ (print_value v ++ (c ∷ s))) plain,
      read_value-print_value v c s stop,
    )

pub read_members-print_members :
    (ms : List (Bytes × Value)) (f : ℕ)
    → ms ≢ []
    → ArePlainKeys ms
    → length ms ≤ f
    → read_members f (print_members ms) ≡ some ms
unfolding read_members print_members
read_members-print_members [] f some_member plain enough = absurd (some_member refl)
read_members-print_members (m ∷ ms) zero some_member plain enough = absurd (omega arith)
read_members-print_members ((k, v) ∷ []) (suc f) some_member plain enough =
    ground (arith, read_member-print k v b'}' [] plain.0 refl)
read_members-print_members ((k, v) ∷ m ∷ ms) (suc f) some_member plain enough = ground (
  arith,
  read_member-print k v b',' (print_members (m ∷ ms)) plain.0 refl,
  read_members-print_members (m ∷ ms) f (λ e. cc) plain.1 (omega arith),
)

pub le-length-print_members : (ms : List (Bytes × Value)) → length ms ≤ length (print_members ms)
unfolding print_members
le-length-print_members [] = omega arith
le-length-print_members ((k, v) ∷ []) = omega arith
le-length-print_members ((k, v) ∷ m ∷ ms) = omega (
  arith,
  le-length-print_members (m ∷ ms),
  length-append k (quote ∷ b':' ∷ (print_value v ++ (b',' ∷ print_members (m ∷ ms)))),
  length-append (print_value v) (b',' ∷ print_members (m ∷ ms)),
)
