-- ===== src/Triple/Steps.antt =====
-- Two threads over one triple buffer: every interleaving of their atomic operations.
use Prim.Native.Nat.{bit_and, bit_or}
use led_platform.Prelude.{
  Bool-cases, inl, inr, subst, sym, Bool, arith, false, get_elem?, get_elem?-set_ne, length,
  length-set, refl, some, suc, true, zero, ◌%◌, ◌+◌, ◌-◌, ◌<◌, ◌∙◌, ◌≡◌, ◌≢◌, ◌≤◌, ℕ,
}
use led_platform.Triple.Buffer.{
  Buffer, fresh, index_mask, triple_buffer, input, publish, is_fresh, take_shared, update, output,
}

-- The buffer with what the threads are at: whether the consumer has seen the flag and not yet
-- swapped, and the value that the producer published last (at first, what the consumer holds).
pub record World {ℓ} (A : Type ℓ) : Type ℓ where
  pub buffer : Buffer A
  pub seen : Bool
  pub latest : A

-- `published` ties the ghost to what the producer's slot holds as it publishes.
pub data Step {ℓ} {A : Type ℓ} : World A → World A → Type ℓ where
  writes : (w : World A) (v : A) → Step w (record w { buffer = input w.buffer v })
  publishes :
      (w : World A) (v : A)
      → get_elem? w.buffer.slots w.buffer.producer ≡ some v
      → Step w (record w { buffer = publish w.buffer; latest = v })
  loads : (w : World A) → w.seen ≡ false → Step w (record w { seen = is_fresh w.buffer })
  swaps :
      (w : World A)
      → w.seen ≡ true
      → Step w (record w { buffer = take_shared w.buffer; seen = false })

pub data Steps {ℓ} {A : Type ℓ} (w : World A) : World A → Type ℓ where
  here : Steps w w
  next : {v u : World A} → Steps w v → Step v u → Steps w u

bit_or-fresh : (i : ℕ) → i < 3 → bit_or i fresh ≡ i + 4
bit_or-fresh zero h = refl
bit_or-fresh (suc zero) h = refl
bit_or-fresh (suc (suc zero)) h = refl
bit_or-fresh (suc (suc (suc i))) h = absurd (omega arith)

-- The words that the shared cell takes: an index, with or without the flag.
bit_and-word : (x : ℕ) → x < 8 → (bit_and x index_mask ≡ x % 4) × (bit_and x fresh ≡ x - x % 4)
bit_and-word zero h = (refl, refl)
bit_and-word (suc zero) h = (refl, refl)
bit_and-word (suc (suc zero)) h = (refl, refl)
bit_and-word (suc (suc (suc zero))) h = (refl, refl)
bit_and-word (suc (suc (suc (suc zero)))) h = (refl, refl)
bit_and-word (suc (suc (suc (suc (suc zero))))) h = (refl, refl)
bit_and-word (suc (suc (suc (suc (suc (suc zero)))))) h = (refl, refl)
bit_and-word (suc (suc (suc (suc (suc (suc (suc zero))))))) h = (refl, refl)
bit_and-word (suc (suc (suc (suc (suc (suc (suc (suc x)))))))) h = absurd (omega arith)

published_index : (i : ℕ) → i < 3 → i ≡ (i + 4) % 4
published_index i h = omega arith

-- The three indices are a permutation of 0, 1, 2; a flag that the consumer has seen stays; the
-- value published last is in the shared slot while the flag is up, and with the consumer after.
pub record IsSound {ℓ} {A : Type ℓ} (w : World A) : Type ℓ where
  pub word : w.buffer.shared < 8
  pub middle_lt : w.buffer.shared % 4 < 3
  pub producer_lt : w.buffer.producer < 3
  pub consumer_lt : w.buffer.consumer < 3
  pub apart : w.buffer.producer ≢ w.buffer.consumer
  pub producer_apart : w.buffer.producer ≢ w.buffer.shared % 4
  pub consumer_apart : w.buffer.consumer ≢ w.buffer.shared % 4
  pub seen_fresh : w.seen ≡ true → 4 ≤ w.buffer.shared
  pub three : length w.buffer.slots ≡ 3
  pub waiting : 4 ≤ w.buffer.shared → get_elem? w.buffer.slots (w.buffer.shared % 4) ≡ some w.latest
  pub taken : w.buffer.shared < 4 → get_elem? w.buffer.slots w.buffer.consumer ≡ some w.latest

pub Step-IsSound {ℓ} : {A : Type ℓ} {w v : World A} → Step w v → IsSound w → IsSound v
unfolding input publish is_fresh take_shared
Step-IsSound (writes w v) h = record {
  word = h.word;
  middle_lt = h.middle_lt;
  producer_lt = h.producer_lt;
  consumer_lt = h.consumer_lt;
  apart = h.apart;
  producer_apart = h.producer_apart;
  consumer_apart = h.consumer_apart;
  seen_fresh = h.seen_fresh;
  three = length-set w.buffer.slots w.buffer.producer v ∙ h.three;
  waiting = λ f. get_elem?-set_ne w.buffer.slots v h.producer_apart ∙ h.waiting f;
  taken = λ f. get_elem?-set_ne w.buffer.slots v h.apart ∙ h.taken f;
}
Step-IsSound (publishes w v e) h =
    rw (bit_or-fresh w.buffer.producer h.producer_lt, (bit_and-word w.buffer.shared h.word).0)
      record {
        word = omega arith;
        middle_lt = omega arith;
        producer_lt = h.middle_lt;
        consumer_lt = h.consumer_lt;
        apart = λ q. h.consumer_apart (sym q);
        producer_apart = omega arith;
        consumer_apart = omega arith;
        seen_fresh = λ q. omega arith;
        three = h.three;
        waiting = λ f.
            subst (λ i. get_elem? w.buffer.slots i ≡ some v)
              (published_index w.buffer.producer h.producer_lt) e;
        taken = λ f. absurd (omega arith);
      }
Step-IsSound (loads w e) h = record {
  word = h.word;
  middle_lt = h.middle_lt;
  producer_lt = h.producer_lt;
  consumer_lt = h.consumer_lt;
  apart = h.apart;
  producer_apart = h.producer_apart;
  consumer_apart = h.consumer_apart;
  seen_fresh = λ q. ground (arith, (bit_and-word w.buffer.shared h.word).1);
  three = h.three;
  waiting = h.waiting;
  taken = h.taken;
}
Step-IsSound (swaps w e) h = rw ((bit_and-word w.buffer.shared h.word).0) record {
  word = omega arith;
  middle_lt = omega arith;
  producer_lt = h.producer_lt;
  consumer_lt = h.middle_lt;
  apart = h.producer_apart;
  producer_apart = omega arith;
  consumer_apart = omega arith;
  seen_fresh = λ q. cc;
  three = h.three;
  waiting = λ f. absurd (omega arith);
  taken = λ f. h.waiting (h.seen_fresh e);
}

pub Steps-IsSound {ℓ} : {A : Type ℓ} {w v : World A} → IsSound w → Steps w v → IsSound v
Steps-IsSound h here = h
Steps-IsSound h (next r s) = Step-IsSound s (Steps-IsSound h r)

module _ {ℓ} {A : Type ℓ} where
  abbrev pub start : A → A → A → World A
  start a b c = record { buffer = triple_buffer a b c; seen = false; latest = b }

  pub start-IsSound : (a b c : A) → IsSound (start a b c)
  unfolding triple_buffer
  start-IsSound a b c = record {
    word = omega arith;
    middle_lt = omega arith;
    producer_lt = omega arith;
    consumer_lt = omega arith;
    apart = omega arith;
    producer_apart = omega arith;
    consumer_apart = omega arith;
    seen_fresh = λ q. cc;
    three = refl;
    waiting = λ f. absurd (omega arith);
    taken = λ f. refl;
  }

  -- In every state that the two sides reach from a fresh triple buffer, by any interleaving of
  -- their operations, the producer and the consumer hold different slots, and both indices are
  -- below 3.
  pub Steps-apart :
      (a b c : A) {w : World A}
      → Steps (start a b c) w
      → (w.buffer.producer < 3) × (w.buffer.consumer < 3) × (w.buffer.producer ≢ w.buffer.consumer)
  Steps-apart a b c r =
      let h = Steps-IsSound (start-IsSound a b c) r in (h.producer_lt, h.consumer_lt, h.apart)

  -- In every reachable state neither a write to the input slot nor a publication changes the frame
  -- that the consumer reads: no torn frame.
  pub output-input :
      (a b c v : A) {w : World A}
      → Steps (start a b c) w
      → (output (input w.buffer v) ≡ output w.buffer)
        × (output (publish w.buffer) ≡ output w.buffer)
  unfolding output input publish
  output-input a b c v {w} r =
      let h = Steps-IsSound (start-IsSound a b c) r in
      (get_elem?-set_ne w.buffer.slots v h.apart, refl)

  -- In every interleaving, once the load of `update` has seen the fresh bit, the swap brings the
  -- consumer the latest frame published, also if it was published between the load and the swap.
  pub output-take_shared :
      (a b c : A) {w : World A}
      → Steps (start a b c) w
      → w.seen ≡ true
      → output (take_shared w.buffer) ≡ some w.latest
  unfolding output take_shared
  output-take_shared a b c {w} r e =
      let h = Steps-IsSound (start-IsSound a b c) r in
      rw ((bit_and-word w.buffer.shared h.word).0) (h.waiting (h.seen_fresh e))

  -- In every reachable state an `update` that nothing interrupts leaves the consumer with the
  -- latest frame published, whether it reports a new frame or not.
  output-update :
      (a b c : A) {w : World A} → Steps (start a b c) w → output (update w.buffer).0 ≡ some w.latest
  unfolding update output
  output-update a b c {w} r =
      let h = Steps-IsSound (start-IsSound a b c) r in
      elim (Bool-cases (is_fresh w.buffer)) [
        | inl f ↦ rw f (
            rw ((bit_and-word w.buffer.shared h.word).0) (
              h.waiting
                (unfold is_fresh in ground (arith, (bit_and-word w.buffer.shared h.word).1))))
        | inr f ↦
            rw f
              (h.taken (unfold is_fresh in ground (arith, (bit_and-word w.buffer.shared h.word).1)))
      ]
