-- ===== src/Photodiode/Sampling.antt =====
-- The sampling rounds of esp32/target/src/photodiode.cpp and
-- esp32/target/src/tasks/photodiode_task.cpp.
use ray_z.Laser.Wire.{bits}
use ray_z.Photodiode.{
  FloatOps, Photodiode, begin, convert_to_bits, finish_bit, photodiode, photodiode_round, store_bit,
  take_sample, update, average,
}
use ray_z.Photodiode.Ring.{IsRing, store_bit-IsRing}
use ray_z.Prelude.{
  Bool, List, arith, false, length, length-set, none, refl, some, sub32, true, ℕ, ◌<◌, ◌↔◌, ◌≡◌,
  ◌≢◌, ◌≤◌,
}
use ray_z.Protocol.{samples_per_bit}

module _ (ops : FloatOps) where
  open ops use {Float}

  -- The array indices are in bounds.
  pub record IsReceiver (p : Photodiode ops) : Type 0 where
    pub samples : length p.sample_buffer ≡ samples_per_bit
    pub index_lt : p.sample_index < samples_per_bit
    pub is_ring : IsRing p.ring

  -- Once the constructor and `begin` have run, with memory for the mutex, the indices are in
  -- bounds, and no reading of the ADC takes them out of bounds, at any time and whether the mutex
  -- is taken or not.
  pub begin-IsReceiver :
      (samples bits : List Float) (t u : ℕ)
      → IsReceiver (begin ops true t u (photodiode ops samples bits))
  unfolding begin photodiode
  begin-IsReceiver samples bits t u = record {
    samples = refl;
    index_lt = omega arith;
    is_ring = record {
      size = refl;
      head_lt = omega arith;
      full = λ e. ground (arith, e);
      filling = λ _. (omega arith, refl);
    };
  }

  -- A reading keeps every array index of the receiver in bounds and the ring consistent, at any
  -- time and whether or not the mutex is taken.
  pub update-IsReceiver :
      (took : Bool) (t raw : ℕ) (p : Photodiode ops)
      → IsReceiver p
      → IsReceiver (update ops took t raw p)
  unfolding update finish_bit take_sample
  update-IsReceiver took t raw p h =
      let q = take_sample ops t raw p in
      ground (
        arith,
        h.is_ring,
        length-set p.sample_buffer p.sample_index
            (ops.div (ops.mul (ops.of_int raw) (ops.decimal 33 1)) (ops.of_int 4095)),
        store_bit-IsRing (average ops q.sample_buffer) p.ring h.is_ring,
      )

  -- With a full ring, a round that is due sends a word exactly when it completes a bit, and no
  -- completed bit is sent twice.
  pub photodiode_round-full :
      (t raw : ℕ) (p : Photodiode ops)
      → IsReceiver p
      → p.ring.buffer_full ≡ true
      → p.sample_buffer_full ≡ false
      → 1 ≤ sub32 t p.last_sample_time
      → let next = photodiode_round ops true true t raw p in
        ((next.0 ≢ none) ↔ (p.sample_index ≡ 2)) × (next.1.sample_buffer_full ≡ false)
  unfolding photodiode_round update finish_bit take_sample convert_to_bits store_bit
  photodiode_round-full t raw p h full clear due = ground arith

  -- While the ring is filling, the first completed bit leaves the flag set, so that from then on
  -- every round sends the word 0.
  pub photodiode_round-filling :
      (took took_again : Bool) (t raw : ℕ) (p : Photodiode ops)
      → IsReceiver p
      → (update ops took t raw p).ring.buffer_full ≡ false
      → p.sample_buffer_full ≡ true
      → let next = photodiode_round ops took took_again t raw p in
        (next.0 ≡ some 0) × (next.1.sample_buffer_full ≡ true)
  unfolding photodiode_round update finish_bit take_sample convert_to_bits store_bit
  photodiode_round-filling took took_again t raw p h filling flag = ground arith
