-- ===== src/Audio/RingBuffer.antt =====
-- crates/audio-core/src/ring_buffer.rs. The counters are `usize`, of 64 bits, and wrap. The mask is one
-- less than a power of two, so that `x & mask` is a remainder. A call of the producer and one of the
-- consumer are taken one after the other.
pub mod Slots
pub mod Refine
use led_platform.Prelude.{
  Bool, List, Option, [], get_or, if◌then◌else◌, length, ltb, min, none, replicate, set, some, suc,
  take, u64, zero, ℕ, ◌%◌, ◌&&◌, ◌+◌, ◌-◌, ◌==◌, ◌∷◌,
}

abbrev pub word : ℕ
word = 18446744073709551616

-- On a `usize`: it is not zero, and divides 2^64.
abbrev pub is_power_of_two : ℕ → Bool
is_power_of_two n = ltb 0 n && (ltb n word && word % n == 0)

pub record RingBuffer (A : Type 0) : Type 0 where
  pub buf : List A
  pub mask : ℕ
  pub write : ℕ
  pub read : ℕ

abbrev pub wrapping_add : ℕ → ℕ → ℕ
wrapping_add a b = u64 (a + b)

abbrev pub wrapping_sub : ℕ → ℕ → ℕ
wrapping_sub a b = u64 (a + (word - b))

abbrev pub masked : ℕ → ℕ → ℕ
masked mask i = i % suc mask

-- The samples, with the one that the buffer is filled with.
module _ {A : Type 0} (silence : A) where
  unfoldable pub new : ℕ → Option (RingBuffer A)
  new capacity =
      if is_power_of_two capacity
      then some
          (record { buf = replicate capacity silence; mask = capacity - 1; write = 0; read = 0 })
      else none

  unfoldable pub capacity : RingBuffer A → ℕ
  capacity rb = length rb.buf

  unfoldable pub available : RingBuffer A → ℕ
  available rb = wrapping_sub rb.write rb.read

  -- The loop of `push_slice`, from sample `i` on.
  unfoldable pub store : ℕ → ℕ → ℕ → List A → List A → List A
  store mask w i [] buf = buf
  store mask w i (x ∷ xs) buf = store mask w (suc i) xs (set buf (masked mask (wrapping_add w i)) x)

  unfoldable pub push_slice : RingBuffer A → List A → RingBuffer A × ℕ
  unfolding capacity available store
  push_slice rb samples =
      let free = capacity rb - available rb in
      let n = min (length samples) free in
      (
        record rb {
          buf = store rb.mask rb.write 0 (take n samples) rb.buf;
          write = wrapping_add rb.write n;
        },
        n,
      )

  -- The loop of `pop_exact` over `n` slots of `out`.
  unfoldable pub load : ℕ → ℕ → ℕ → ℕ → List A → List A
  load mask r i zero buf = []
  load mask r i (suc n) buf =
      get_or buf (masked mask (wrapping_add r i)) silence ∷ load mask r (suc i) n buf

  -- `out` has `n` slots; `none` is the answer `false`.
  unfoldable pub pop_exact : RingBuffer A → ℕ → RingBuffer A × Option (List A)
  unfolding available load
  pop_exact rb n =
      if ltb (available rb) n
      then (rb, none)
      else (record rb { read = wrapping_add rb.read n }, some (load rb.mask rb.read 0 n rb.buf))
