-- ===== src/Photodiode/Receive.antt =====
-- What the receiver of esp32/target/src/photodiode.cpp makes of the voltages it has seen.
use mathlib.Core.List.{append_cancel_right, append-nil, append_assoc}
use native.Mathlib.Nat.{mul-le-mul_left, pow-suc}
use ray_z.Laser.{shl32, send_message}
use ray_z.Laser.Wire.{shift_in, bits, send_message_lem, length-bits, shift_in_message}
use ray_z.Photodiode.{BitRing, convert_loop, store_bit, FloatOps, Photodiode, convert_to_bits}
use ray_z.Photodiode.Ring.{
  read_ring, slide, IsRing, contents, contents-store_bit, store_bit-IsRing, length-contents,
}
use ray_z.Prelude.{
  Bool, List, [], ap, arith, drop, if◌then◌else◌, length, map, refl, suc, zero, ℕ, ◌*◌, ◌++◌, ◌+◌,
  ◌-◌, ◌^◌, ◌∷◌, ◌≡◌, ◌≤◌, Bool-cases, get_or, inl, inr, sym, ◌%◌, ◌∙◌, bit_or, bit_or_disjoint,
  length-append, ap₂, true, ◌<◌, length-map,
}
use ray_z.Protocol.{photodiode_buffer_size}

abbrev pub store_all : {V : Type 0} → List V → BitRing V → BitRing V
store_all [] r = r
store_all (v ∷ vs) r = store_all vs (store_bit v r)

-- The level that a comparison with the threshold gives.
abbrev pub level : Bool → ℕ
level b = if b then 1 else 0

drop_none : {A : Type 0} (m : ℕ) → drop {A = A} m [] ≡ []
drop_none zero = refl
drop_none (suc m) = refl

drop-add : {A : Type 0} (m n : ℕ) (xs : List A) → drop m (drop n xs) ≡ drop (n + m) xs
drop-add m zero xs = ap (λ k. drop k xs) {x = m} {y = 0 + m} (omega arith)
drop-add m (suc n) [] = drop_none m ∙ sym (drop_none (suc n + m))
drop-add m (suc n) (x ∷ xs) =
    drop-add m n xs ∙ ap (λ k. drop k (x ∷ xs)) {x = suc (n + m)} {y = suc n + m} (omega arith)

drop-append :
    {A : Type 0} (n : ℕ) (xs ys : List A) → n ≤ length xs → drop n (xs ++ ys) ≡ drop n xs ++ ys
drop-append zero xs ys h = refl
drop-append (suc n) [] ys h = absurd (omega arith)
drop-append (suc n) (x ∷ xs) ys h = drop-append n xs ys (omega arith)

drop-length : {A : Type 0} (xs ys : List A) → drop (length xs) (xs ++ ys) ≡ ys
drop-length [] ys = refl
drop-length (x ∷ xs) ys = drop-length xs ys

one-le-pow : (n : ℕ) → 1 ≤ 2 ^ n
one-le-pow zero = omega arith
one-le-pow (suc n) = omega (arith, one-le-pow n, pow-suc 2 n)

length-drop : {A : Type 0} (n : ℕ) (xs : List A) → length (drop n xs) ≡ length xs - n
length-drop zero xs = omega arith
length-drop (suc n) [] = omega arith
length-drop (suc n) (x ∷ xs) = omega (arith, length-drop n xs)

module _ {V : Type 0} where
  abbrev pub slide_all : List V → List V → List V
  slide_all [] c = c
  slide_all (v ∷ vs) c = slide_all vs (slide v c)

  length-slide : (v : V) (c : List V) → length (slide v c) ≡ length c + 1 - (length c + 1 - 32)
  length-slide v c =
      omega (arith, length-drop (length c + 1 - 32) (c ++ (v ∷ [])), length-append c (v ∷ []))

  -- A window of 32 keeps the last 32 of all that enters.
  slide_all_lem :
      (vs c : List V) → length c ≤ 32 → slide_all vs c ≡ drop (length (c ++ vs) - 32) (c ++ vs)
  slide_all_lem [] c h =
      rw append-nil (ap (λ k. drop k c) {x = 0} {y = length c - 32} (omega arith))
  slide_all_lem (v ∷ vs) c h =
      slide_all_lem vs (slide v c) (omega (arith, length-slide v c))
      ∙ ap (λ l. drop (length l - 32) l)
          (sym (drop-append k (c ++ (v ∷ [])) vs (omega (arith, length-append c (v ∷ [])))))
      ∙ drop-add (length (drop k all) - 32) k all
      ∙ ap₂ (λ m l. drop m l) count (append_assoc c (v ∷ []) vs)
    where
      k : ℕ
      k = length c + 1 - 32

      all : List V
      all = (c ++ (v ∷ [])) ++ vs

      count : k + (length (drop k all) - 32) ≡ length (c ++ (v ∷ vs)) - 32
      count = omega (
        arith,
        length-drop k all,
        length-append (c ++ (v ∷ [])) vs,
        length-append c (v ∷ []),
        length-append c (v ∷ vs),
      )

  convert_loop_lem :
      (above : V → Bool) (d : V) (buffer : List V) (start n i j result : ℕ)
      → start + i ≡ j
      → (result + 1) * 2 ^ n ≤ 2 ^ 32
      → convert_loop above d buffer start n i result
        ≡ shift_in result (map (λ v. level (above v)) (read_ring d buffer j n))
  unfolding convert_loop
  convert_loop_lem above d buffer start zero i j result e h = refl
  convert_loop_lem above d buffer start (suc n) i j result e h =
      elim (Bool-cases (above (get_or buffer (j % photodiode_buffer_size) d))) [
        | inl one ↦
            rw (e, one, doubled, bit_or_one)
              (convert_loop_lem above d buffer start n (i + 1) (j + 1) (result * 2 + 1)
                (omega (arith, e)) (omega (arith, twice)))
        | inr off ↦
            rw (e, off, doubled_zero)
              (convert_loop_lem above d buffer start n (i + 1) (j + 1) (result * 2 + 0)
                (omega (arith, e)) (omega (arith, twice)))
      ]
    where
      twice : (result + 1) * 2 ^ suc n ≡ (result + 1) * (2 ^ n * 2)
      twice = ap (λ t. (result + 1) * t) (pow-suc 2 n)

      doubled : shl32 result 1 ≡ result * 2
      doubled = omega (twice, arith, pow-suc 2 n, mul-le-mul_left (result + 1) (one-le-pow n))

      doubled_zero : shl32 result 1 ≡ result * 2 + 0
      doubled_zero = omega (arith, doubled)

      bit_or_one : bit_or (result * 2) 1 ≡ result * 2 + 1
      bit_or_one = bit_or_disjoint 1 result 1 (omega arith)

  pub convert_loop-full :
      (above : V → Bool) (d : V) (r : BitRing V)
      → IsRing r
      → r.buffer_full ≡ true
      → convert_loop above d r.bit_buffer r.bit_head 32 0 0
        ≡ shift_in 0 (map (λ v. level (above v)) (contents d r))
  convert_loop-full above d r h full =
      rw (full, h.full full)
        (convert_loop_lem above d r.bit_buffer r.bit_head 32 0 r.bit_head 0 (omega arith)
          (omega arith))

  contents-store_all :
      (d : V) (vs : List V) (r : BitRing V)
      → IsRing r
      → IsRing (store_all vs r) × (contents d (store_all vs r) ≡ slide_all vs (contents d r))
  contents-store_all d [] r h = (h, refl)
  contents-store_all d (v ∷ vs) r h =
      let rest = contents-store_all d vs (store_bit v r) (store_bit-IsRing v r h) in
      (rest.0, rest.1 ∙ ap (λ c. slide_all vs c) (contents-store_bit d v r h))

  -- Whatever a ring held, after 32 more voltages it is full and holds exactly these, in order.
  pub contents-store_32 :
      (d : V) (vs : List V) (r : BitRing V)
      → IsRing r
      → length vs ≡ 32
      → ((store_all vs r).buffer_full ≡ true) × (contents d (store_all vs r) ≡ vs)
  contents-store_32 d vs r h size =
      let stored = contents-store_all d vs r h in
      let held =
        stored.1
        ∙ slide_all_lem vs (contents d r) (ground (arith, length-contents d r))
        ∙ ap (λ k. drop k (contents d r ++ vs)) {x = length (contents d r ++ vs) - 32}
            {y = length (contents d r)} (omega (arith, length-append (contents d r) vs))
        ∙ drop-length (contents d r) vs in
      (ground (arith, stored.0, size, ap length held, length-contents d (store_all vs r)), held)

module _ (ops : FloatOps) where
  open ops use {Float, decimal, lt}

  -- When the ring is consistent and its mutex is taken, and 32 voltages that lie above and below
  -- the threshold as the levels which the laser task writes for a 32-bit message have been stored
  -- after whatever the ring held, the receiver returns that message.
  pub convert_to_bits-send_message :
      (p : Photodiode ops) (vs : List Float) (message : ℕ)
      → IsRing p.ring
      → message < 2 ^ 32
      → map (λ v. level (lt p.dynamic_threshold v)) vs ++ (0 ∷ []) ≡ send_message message
      → (convert_to_bits ops true (record p { ring = store_all vs p.ring })).0 ≡ message
  unfolding convert_to_bits
  convert_to_bits-send_message p vs message h m_lt levels =
      let r = store_all vs p.ring in
      let bits_eq =
        append_cancel_right (map (λ v. level (lt p.dynamic_threshold v)) vs) (bits 32 message)
          (0 ∷ []) (levels ∙ send_message_lem message) in
      let stored = contents-store_32 (decimal 0 1) vs p.ring h (
        sym (length-map (λ v. level (lt p.dynamic_threshold v)) vs)
        ∙ ap length bits_eq
        ∙ length-bits 32 message) in
      rw stored.0 (
        convert_loop-full (λ v. lt p.dynamic_threshold v) (decimal 0 1) r
          (contents-store_all (decimal 0 1) vs p.ring h).0 stored.0
        ∙ ap (λ l. shift_in 0 (map (λ v. level (lt p.dynamic_threshold v)) l)) stored.1
        ∙ ap (λ l. shift_in 0 l) bits_eq
        ∙ shift_in_message message m_lt)
