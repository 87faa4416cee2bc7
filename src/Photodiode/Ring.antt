-- ===== src/Photodiode/Ring.antt =====
-- The bit ring of esp32/target/src/photodiode.cpp is a sliding window over the averaged voltages.
use ray_z.Photodiode.{BitRing, store_bit}
use ray_z.Prelude.{
  List, [], ap, arith, drop, false, get_or, if◌then◌else◌, length, length-set, refl, set, suc, true,
  zero, ℕ, ◌%◌, ◌++◌, ◌+◌, ◌-◌, ◌<◌, ◌∙◌, ◌∷◌, ◌≡◌, ◌≢◌, get_or-set_ne, get_or-set_self, sym,
  Bool-cases, ap₂, inl, inr, leb,
}
use ray_z.Protocol.{photodiode_buffer_size}

last_place : (c : ℕ) → leb 32 (c + 1) ≡ true → c < 32 → c ≡ 31
last_place c last lt = ground arith

module _ {V : Type 0} where
  -- `n` voltages from the ring, from position `j` on.
  abbrev pub read_ring : V → List V → ℕ → ℕ → List V
  read_ring d buffer j zero = []
  read_ring d buffer j (suc n) =
      get_or buffer (j % photodiode_buffer_size) d ∷ read_ring d buffer (j + 1) n

  -- The voltages that the ring holds, the oldest first.
  abbrev pub contents : V → BitRing V → List V
  contents d r = read_ring d r.bit_buffer (if r.buffer_full then r.bit_head else 0) r.bit_count

  pub record IsRing (r : BitRing V) : Type 0 where
    pub size : length r.bit_buffer ≡ 32
    pub head_lt : r.bit_head < 32
    pub full : r.buffer_full ≡ true → r.bit_count ≡ 32
    pub filling : r.buffer_full ≡ false → (r.bit_count < 32) × (r.bit_head ≡ r.bit_count)

  pub store_bit-IsRing : (v : V) (r : BitRing V) → IsRing r → IsRing (store_bit v r)
  unfolding store_bit
  store_bit-IsRing v r h = ground (arith, length-set r.bit_buffer r.bit_head v)

  -- What a window of 32 voltages holds after one more.
  abbrev pub slide : V → List V → List V
  slide v c = drop (length c + 1 - 32) (c ++ (v ∷ []))

  length-read_ring : (d : V) (buffer : List V) (j n : ℕ) → length (read_ring d buffer j n) ≡ n
  length-read_ring d buffer j zero = refl
  length-read_ring d buffer j (suc n) = ap suc (length-read_ring d buffer (j + 1) n)

  read_ring-suc :
      (d : V) (buffer : List V) (j n : ℕ)
      → read_ring d buffer j (suc n)
        ≡ read_ring d buffer j n ++ (get_or buffer ((j + n) % 32) d ∷ [])
  read_ring-suc d buffer j zero =
      ap (λ k. get_or buffer (k % 32) d ∷ []) {x = j} {y = j + 0} (omega arith)
  read_ring-suc d buffer j (suc n) =
      ap (λ l. get_or buffer (j % 32) d ∷ l)
        (read_ring-suc d buffer (j + 1) n
          ∙ ap (λ k. read_ring d buffer (j + 1) n ++ (get_or buffer (k % 32) d ∷ []))
              {x = j + 1 + n} {y = j + suc n} (omega arith))

  -- A write at `h` is not seen by a read that stays clear of it.
  read_ring-set :
      (d v : V) (buffer : List V) (h j j' n : ℕ)
      → ((k : ℕ) → k < n → ((j + k) % 32 ≡ (j' + k) % 32) × ((j + k) % 32 ≢ h))
      → read_ring d (set buffer h v) j n ≡ read_ring d buffer j' n
  read_ring-set d v buffer h j j' zero clear = refl
  read_ring-set d v buffer h j j' (suc n) clear =
      ap₂ (λ x l. x ∷ l)
        (get_or-set_ne buffer {i = h} {j = j % 32} v d
            (λ e. omega (arith, clear 0 (omega arith), e))
          ∙ ap (λ k. get_or buffer k d) (omega (arith, clear 0 (omega arith))))
        (read_ring-set d v buffer h (j + 1) (j' + 1) n (λ k lt. (
          omega (arith, clear (suc k) (omega arith)),
          λ e. omega (arith, clear (suc k) (omega arith), e),
        )))

  -- The window of a full ring after a write, and that of one which is filling.
  read_ring-full :
      (d v : V) (buffer : List V) (h : ℕ)
      → h < 32
      → length buffer ≡ 32
      → read_ring d (set buffer h v) ((h + 1) % 32) 32 ≡ slide v (read_ring d buffer h 32)
  read_ring-full d v buffer h lt size =
      read_ring-suc d (set buffer h v) ((h + 1) % 32) 31
      ∙ ap₂ (λ l x. l ++ (x ∷ []))
          (read_ring-set d v buffer h ((h + 1) % 32) (h + 1) 31
            (λ k k_lt. (omega arith, λ e. omega (arith, e))))
          (ap (λ k. get_or (set buffer h v) k d) {x = ((h + 1) % 32 + 31) % 32} {y = h}
              (omega arith)
            ∙ get_or-set_self buffer h v d (omega arith))

  read_ring-filling :
      (d v : V) (buffer : List V) (c : ℕ)
      → c < 32
      → length buffer ≡ 32
      → read_ring d (set buffer c v) 0 (suc c) ≡ slide v (read_ring d buffer 0 c)
  read_ring-filling d v buffer c lt size =
      read_ring-suc d (set buffer c v) 0 c
      ∙ ap₂ (λ l x. l ++ (x ∷ []))
          (read_ring-set d v buffer c 0 0 c (λ k k_lt. (refl, λ e. omega (arith, e))))
          (ap (λ k. get_or (set buffer c v) k d) {x = (0 + c) % 32} {y = c} (omega arith)
            ∙ get_or-set_self buffer c v d (omega arith))
      ∙ sym (
          ap (λ k. drop k (read_ring d buffer 0 c ++ (v ∷ [])))
            {x = length (read_ring d buffer 0 c) + 1 - 32} {y = 0}
            (omega (arith, length-read_ring d buffer 0 c)))

  pub length-contents : (d : V) (r : BitRing V) → length (contents d r) ≡ r.bit_count
  length-contents d r =
      length-read_ring d r.bit_buffer (if r.buffer_full then r.bit_head else 0) r.bit_count

  -- Storing a voltage into a consistent ring appends it to the window of held voltages, dropping
  -- the oldest one exactly when 32 are held already.
  pub contents-store_bit :
      (d v : V) (r : BitRing V) → IsRing r → contents d (store_bit v r) ≡ slide v (contents d r)
  unfolding store_bit
  contents-store_bit d v r h = elim (Bool-cases r.buffer_full) [
    | inl full ↦
        rw (full, h.full full) (read_ring-full d v r.bit_buffer r.bit_head h.head_lt h.size)
    | inr not_full ↦ elim (Bool-cases (leb 32 (r.bit_count + 1))) [
      | inl last ↦
          rw (not_full, (h.filling not_full).1, last_place r.bit_count last (h.filling not_full).0)
            (read_ring-filling d v r.bit_buffer 31 (omega arith) h.size)
      | inr more ↦
          rw (not_full, more, (h.filling not_full).1)
            (ap (λ n. read_ring d (set r.bit_buffer r.bit_count v) 0 n) {x = r.bit_count + 1}
                {y = suc r.bit_count} (omega arith)
              ∙ read_ring-filling d v r.bit_buffer r.bit_count (h.filling not_full).0 h.size)
    ]
  ]
