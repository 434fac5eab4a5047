-- ===== src/Triple/Tests.antt =====
-- The triple buffer at two frames, the second published while the consumer is about to swap.
use led_platform.Prelude.{[], refl, some, true, ◌<◌, ◌∷◌, ◌≡◌, ◌≢◌, ℕ}
use led_platform.Triple.Buffer.{triple_buffer, input, publish, is_fresh, take_shared, output}
use led_platform.Triple.Steps.{
  World, Steps, writes, publishes, loads, here, next, start, Steps-apart, output-input,
  output-take_shared,
}

abbrev raced : World ℕ
raced = record {
  buffer = record { slots = 7 ∷ 20 ∷ 8 ∷ []; shared = 6; producer = 0; consumer = 1 };
  seen = true;
  latest = 8;
}

-- Written and published, seen, and another frame published before the swap.
race : Steps (start 10 20 30) raced
unfolding triple_buffer input publish is_fresh
race =
    next
      (next (next (next (next here (writes _ 7)) (publishes _ 7 refl)) (loads _ refl)) (writes _ 8))
      (publishes _ 8 refl)

Steps-apart_example :
    (raced.buffer.producer < 3)
    × (raced.buffer.consumer < 3)
    × (raced.buffer.producer ≢ raced.buffer.consumer)
Steps-apart_example = Steps-apart 10 20 30 race

output-input_example :
    (output (input raced.buffer 9) ≡ output raced.buffer)
    × (output (publish raced.buffer) ≡ output raced.buffer)
output-input_example = output-input 10 20 30 9 race

output-take_shared_example : output (take_shared raced.buffer) ≡ some 8
output-take_shared_example = output-take_shared 10 20 30 race refl
