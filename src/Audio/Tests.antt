-- ===== src/Audio/Tests.antt =====
-- A ring of four samples that wraps, and drops what does not fit.
use led_platform.Prelude.{List, [], none, refl, some, ℕ, ◌∷◌, ◌≡◌}
use led_platform.Audio.RingBuffer.{RingBuffer, new}
use led_platform.Audio.RingBuffer.Refine.{
  Call, pushes, pops, pushed, popped, replies, queue_replies, replies-new,
}

abbrev ring : RingBuffer ℕ
ring = record { buf = 0 ∷ 0 ∷ 0 ∷ 0 ∷ []; mask = 3; write = 0; read = 0 }

made : new 0 4 ≡ some ring
unfolding new
made = refl

abbrev calls : List (Call ℕ)
calls = pushes (1 ∷ 2 ∷ 3 ∷ []) ∷ pops 2 ∷ pushes (4 ∷ 5 ∷ 6 ∷ 7 ∷ []) ∷ pops 5 ∷ pops 4 ∷ []

wrapped :
    replies 0 ring calls
    ≡ pushed 3
      ∷ popped (some (1 ∷ 2 ∷ []))
      ∷ pushed 3
      ∷ popped none
      ∷ popped (some (3 ∷ 4 ∷ 5 ∷ 6 ∷ []))
      ∷ []
unfolding replies
wrapped = refl

not_a_power : new (let z : ℕ = 0 in z) 6 ≡ none
unfolding new
not_a_power = refl

replies-new_example : replies 0 ring calls ≡ queue_replies 0 4 [] calls
replies-new_example = replies-new 0 4 ring calls made
