-- ===== src/Photodiode.antt =====
-- The light receiver: class `Photodiode` (esp32/target/src/photodiode.cpp and
-- esp32/target/include/photodiode.hpp). Its `float` arithmetic is a parameter of the model.
pub mod Ring
pub mod Receive
pub mod Sampling
use ray_z.Laser.{shl32}
use ray_z.Laser.Wire.{bits}
use ray_z.Prelude.{
  Bool, List, bit_or, get_or, if◌then◌else◌, leb, set, suc, zero, ℕ, ◌%◌, ◌+◌, ◌||◌, Option, [],
  false, ltb, none, replicate, some, sub32, true, ◌∷◌,
}
use ray_z.Protocol.{photodiode_buffer_size, sample_interval_ms, samples_per_bit}

-- `float` and the operations that the class uses; `decimal m k` is the literal m / 10^k, and
-- `of_int` converts an ADC reading.
pub record FloatOps : Type 1 where
  pub Float : Type 0
  pub decimal : ℕ → ℕ → Float
  pub of_int : ℕ → Float
  pub add : Float → Float → Float
  pub sub : Float → Float → Float
  pub neg : Float → Float
  pub mul : Float → Float → Float
  pub div : Float → Float → Float
  pub lt : Float → Float → Bool

-- The ring of averaged bits, `bitBuffer` and its three indices.
pub record BitRing (V : Type 0) : Type 0 where
  pub bit_buffer : List V
  pub bit_head : ℕ
  pub bit_count : ℕ
  pub buffer_full : Bool

module _ {V : Type 0} where
  -- The critical section of `update`: an averaged voltage enters the ring.
  unfoldable pub store_bit : V → BitRing V → BitRing V
  store_bit v r =
      let count = r.bit_count + 1 in
      record r {
        bit_buffer = set r.bit_buffer r.bit_head v;
        bit_head = (r.bit_head + 1) % photodiode_buffer_size;
        bit_count =
            if r.buffer_full
            then r.bit_count
            else if leb photodiode_buffer_size count
            then photodiode_buffer_size
            else count;
        buffer_full = r.buffer_full || leb photodiode_buffer_size count;
      }

  -- The loop of `convertToBits`: `n` rounds are left, `i` is the loop variable. `above` is the
  -- comparison with the threshold, and `d` what a read out of range would return.
  unfoldable pub convert_loop : (V → Bool) → V → List V → ℕ → ℕ → ℕ → ℕ → ℕ
  convert_loop above d buffer start zero i result = result
  convert_loop above d buffer start (suc n) i result =
      let idx = (start + i) % photodiode_buffer_size in
      let shifted = shl32 result 1 in
      convert_loop above d buffer start n (i + 1)
        (if above (get_or buffer idx d) then bit_or shifted 1 else shifted)

module _ (ops : FloatOps) where
  open ops use {Float, decimal, of_int, add, sub, neg, mul, div, lt}

  pub record Photodiode : Type 0 where
    pub sample_buffer : List Float
    pub sample_index : ℕ
    pub ring : BitRing Float
    pub sample_buffer_full : Bool
    pub running_min : Float
    pub running_max : Float
    pub dynamic_threshold : Float
    pub last_sample_time : ℕ  -- uint32
    pub bit_start_time : ℕ  -- uint32

  -- The constructor; the two arrays keep what the memory held.
  unfoldable pub photodiode : List Float → List Float → Photodiode
  photodiode samples bits = record {
    sample_buffer = samples;
    sample_index = 0;
    ring = record { bit_buffer = bits; bit_head = 0; bit_count = 0; buffer_full = false };
    sample_buffer_full = false;
    running_min = decimal 33 1;
    running_max = decimal 0 1;
    dynamic_threshold = decimal 165 2;
    last_sample_time = 0;
    bit_start_time = 0;
  }

  -- `created` tells whether there was memory for the mutex; `t` and `u` are the two readings of
  -- the tick count in milliseconds.
  unfoldable pub begin : Bool → ℕ → ℕ → Photodiode → Photodiode
  begin created t u p =
      if created
      then record p {
        sample_buffer = replicate samples_per_bit (decimal 0 1);
        ring = record p.ring {
          bit_buffer = replicate photodiode_buffer_size (decimal 0 1);
          bit_head = 0;
          bit_count = 0;
        };
        last_sample_time = t;
        bit_start_time = u;
      }
      else p

  unfoldable pub average : List Float → Float
  average samples = div (sum (decimal 0 1) samples) (of_int samples_per_bit)
    where
      sum : Float → List Float → Float
      sum acc [] = acc
      sum acc (v ∷ vs) = sum (add acc v) vs

  -- The block of `update` that runs on the last sample of a bit; `took` is whether the mutex was
  -- taken.
  unfoldable pub finish_bit : Bool → ℕ → Photodiode → Photodiode
  unfolding store_bit average
  finish_bit took t p =
      let midpoint = mul (add p.running_min p.running_max) (decimal 5 1) in
      record p {
        sample_buffer_full = true;
        dynamic_threshold =
            add (mul p.dynamic_threshold (decimal 5 1)) (mul midpoint (decimal 5 1));
        ring = if took then store_bit (average p.sample_buffer) p.ring else p.ring;
        sample_index = 0;
        bit_start_time = t;
      }

  -- The samples and the running bounds after the reading `raw` of the ADC at time `t`.
  unfoldable pub take_sample : ℕ → ℕ → Photodiode → Photodiode
  take_sample t raw p =
      let voltage = div (mul (of_int raw) (decimal 33 1)) (of_int 4095) in
      let decay = λ (x : Float). add (mul x (decimal 95 2)) (mul voltage (decimal 5 2)) in
      record p {
        last_sample_time = t;
        running_min = decay p.running_min;
        running_max = decay p.running_max;
        sample_buffer = set p.sample_buffer p.sample_index voltage;
        sample_index = p.sample_index + 1;
      }

  unfoldable pub update : Bool → ℕ → ℕ → Photodiode → Photodiode
  unfolding finish_bit take_sample
  update took t raw p =
      let q = take_sample t raw p in
      if ltb (sub32 t p.last_sample_time) sample_interval_ms
      then p
      else if leb samples_per_bit q.sample_index
      then finish_bit took t q
      else q

  -- A read out of bounds would return the literal 0.
  unfoldable pub convert_to_bits : Bool → Photodiode → ℕ × Photodiode
  unfolding convert_loop
  convert_to_bits took p =
      let r = p.ring in
      let above = λ (v : Float). lt p.dynamic_threshold v in
      let start = if r.buffer_full then r.bit_head else 0 in
      let count = if r.buffer_full then photodiode_buffer_size else r.bit_count in
      if r.buffer_full
      then (
        if took then convert_loop above (decimal 0 1) r.bit_buffer start count 0 0 else 0,
        record p { sample_buffer_full = false },
      )
      else (0, p)

  unfoldable pub get_signal_strength : Photodiode → Float
  get_signal_strength p = sub p.running_max p.running_min

  -- The loop of `getBufferRange`.
  unfoldable pub buffer_bounds : Float → Float → List Float → Float × Float
  buffer_bounds bmin bmax [] = (bmin, bmax)
  buffer_bounds bmin bmax (v ∷ vs) =
      buffer_bounds (if lt v bmin then v else bmin) (if lt bmax v then v else bmax) vs

  unfoldable pub get_buffer_range : Bool → Photodiode → Float
  unfolding buffer_bounds
  get_buffer_range took p = if p.ring.buffer_full then sub bounds.1 bounds.0 else decimal 0 1
    where
      bounds : Float × Float
      bounds =
          buffer_bounds (decimal 9999 0) (neg (decimal 9999 0))
            (if took then p.ring.bit_buffer else [])

  -- One round of `photodiode_task`: what it sends to the queue, if anything.
  unfoldable pub photodiode_round : Bool → Bool → ℕ → ℕ → Photodiode → Option ℕ × Photodiode
  unfolding update convert_to_bits
  photodiode_round took took_again t raw p =
      let q = update took t raw p in
      if q.sample_buffer_full
      then (some (convert_to_bits took_again q).0, (convert_to_bits took_again q).1)
      else (none, q)
