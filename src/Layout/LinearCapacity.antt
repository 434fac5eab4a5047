-- ===== src/Layout/LinearCapacity.antt =====
-- The universes of `linear_format`: how many pixels they hold, and how they are numbered.
use led_platform.Prelude.{
  lt→ltb, mul_mono, suc-mul_mono, ◌%◌, ◌/◌, ◌∙◌, List, Option, [], arith, dec_lt, get_elem?,
  get_elem?-append_left, get_elem?-append_length, is_some, is_some-get_elem?, leb, length,
  length-append, none, refl, some, suc, u16, zero, ℕ_discrete, ◌&&◌, ◌*◌, ◌++◌, ◌+◌, ◌<◌, ◌∷◌, ◌≡◌,
  ◌≤◌, ℕ,
}
use led_platform.Color.{ColorFormat, rgbw, channels}
use led_platform.Layout.Compile.{DeviceId, PixelPhysical}
use led_platform.Layout.Linear.{
  DeviceSpec, universe_size, assign, assign_at, push_slots, all_slots, linear_assignments,
}
use led_platform.Layout.LinearPosition.{
  per_universe-pos, per_universe, assign-room, assign-full, IsPixel, assign-IsPixel,
}

is_some-assign_at :
    (f : ColorFormat) (byte : ℕ) (o : Option (DeviceId × ℕ)) (rest : Option (List PixelPhysical))
    → is_some (assign_at f byte o rest) ≡ (is_some o && is_some rest)
is_some-assign_at f byte (some (d, u)) (some ys) = refl
is_some-assign_at f byte (some (d, u)) none = refl
is_some-assign_at f byte none rest = refl

is_some-assign_room :
    (n : ℕ) (f : ColorFormat) (slots : List (DeviceId × ℕ)) (slot q : ℕ)
    → q < per_universe f
    → slot * per_universe f + q ≤ length slots * per_universe f
    → (slot * per_universe f + suc q ≤ length slots * per_universe f
        → is_some (assign n f slots slot (suc q * channels f))
          ≡ leb (slot * per_universe f + suc q + n) (length slots * per_universe f))
    → is_some (assign (suc n) f slots slot (q * channels f))
      ≡ leb (slot * per_universe f + q + suc n) (length slots * per_universe f)
is_some-assign_room n f slots slot q h l ih =
    rw
      (
        assign-room n f slots slot q h,
        is_some-assign_at f (q * channels f) (get_elem? slots slot)
            (assign n f slots slot (suc q * channels f)),
        is_some-get_elem? slots slot,
      )
      (elim (dec_lt slot (length slots)) [
        | yes lt ↦
            rw
              (
                lt→ltb slot (length slots) lt,
                ih (omega (arith, suc-mul_mono slot (length slots) (per_universe f) lt)),
              )
              (ground arith)
        | no ge ↦ ground (arith, mul_mono (length slots) slot (per_universe f))
      ])

-- A run of `n` pixels succeeds exactly when the universes from `slot` on hold it.
is_some-assign :
    (n : ℕ) (f : ColorFormat) (slots : List (DeviceId × ℕ)) (slot q : ℕ)
    → q ≤ per_universe f
    → slot * per_universe f + q ≤ length slots * per_universe f
    → is_some (assign n f slots slot (q * channels f))
      ≡ leb (slot * per_universe f + q + n) (length slots * per_universe f)
is_some-assign zero f slots slot q h l = unfold assign in ground arith
is_some-assign (suc n) f slots slot q h l = elim (dec_lt q (per_universe f)) [
  | yes room ↦
      is_some-assign_room n f slots slot q room l (is_some-assign n f slots slot (suc q) room)
  | no full ↦
      let end : q ≡ per_universe f = omega arith in
      rw (assign-full n f slots slot q end) (
        is_some-assign_room n f slots (slot + 1) 0 (per_universe-pos f) (omega arith)
          (is_some-assign n f slots (slot + 1) 1 (per_universe-pos f))
        ∙ ground arith)
]

abbrev pub total_universes : List DeviceSpec → ℕ
total_universes [] = 0
total_universes (d ∷ ds) = d.universes + total_universes ds

length-push_slots :
    (n : ℕ) (id : DeviceId) (slots : List (DeviceId × ℕ)) (u : ℕ)
    → length (push_slots n id slots u).0 ≡ length slots + n
unfolding push_slots
length-push_slots zero id slots u = omega arith
length-push_slots (suc n) id slots u = omega (
  arith,
  length-push_slots n id (slots ++ (id, u) ∷ []) (u16 (u + 1)),
  length-append slots ((id, u) ∷ []),
)

length-all_slots :
    (ds : List DeviceSpec) (slots : List (DeviceId × ℕ)) (u : ℕ)
    → length (all_slots ds slots u) ≡ length slots + total_universes ds
unfolding all_slots
length-all_slots [] slots u = omega arith
length-all_slots (d ∷ ds) slots u = omega (
  arith,
  length-all_slots ds (push_slots d.universes d.id slots u).0
      (push_slots d.universes d.id slots u).1,
  length-push_slots d.universes d.id slots u,
)

-- The slot at each index has the index for its universe number, as a `u16`.
abbrev IsNumbered : List (DeviceId × ℕ) → Type 0
IsNumbered slots = (j : ℕ) (d : DeviceId) (u : ℕ) → get_elem? slots j ≡ some (d, u) → u ≡ u16 j

push-IsNumbered :
    (slots : List (DeviceId × ℕ)) (id u : ℕ)
    → IsNumbered slots
    → u ≡ u16 (length slots)
    → IsNumbered (slots ++ (id, u) ∷ [])
push-IsNumbered slots id u h e j d v g = elim (dec_lt j (length slots)) [
  | yes lt ↦ h j d v (rw (get_elem?-append_left slots ((id, u) ∷ []) j lt) at g)
  | no ge ↦ elim (ℕ_discrete j (length slots)) [
    | yes eq ↦ ground (arith, rw eq at g, get_elem?-append_length slots [] (id, u))
    | no ne ↦ absurd (
        ground
          (arith, is_some-get_elem? (slots ++ (id, u) ∷ []) j, length-append slots ((id, u) ∷ [])))
  ]
]

push_slots-IsNumbered :
    (n : ℕ) (id : DeviceId) (slots : List (DeviceId × ℕ)) (u : ℕ)
    → IsNumbered slots
    → u ≡ u16 (length slots)
    → IsNumbered (push_slots n id slots u).0
      × ((push_slots n id slots u).1 ≡ u16 (length (push_slots n id slots u).0))
unfolding push_slots
push_slots-IsNumbered zero id slots u h e = (h, e)
push_slots-IsNumbered (suc n) id slots u h e =
    push_slots-IsNumbered n id (slots ++ (id, u) ∷ []) (u16 (u + 1))
      (push-IsNumbered slots id u h e) (omega (arith, length-append slots ((id, u) ∷ [])))

all_slots-IsNumbered :
    (ds : List DeviceSpec) (slots : List (DeviceId × ℕ)) (u : ℕ)
    → IsNumbered slots
    → u ≡ u16 (length slots)
    → IsNumbered (all_slots ds slots u)
unfolding all_slots
all_slots-IsNumbered [] slots u h e = h
all_slots-IsNumbered (d ∷ ds) slots u h e =
    let (p, q) = push_slots-IsNumbered d.universes d.id slots u h e in
    all_slots-IsNumbered ds _ _ p q

from_start :
    (n : ℕ) (ds : List DeviceSpec) (f : ColorFormat)
    → linear_assignments n ds f ≡ assign n f (all_slots ds [] 0) 0 (0 * channels f)
unfolding linear_assignments
from_start n ds (ColorFormat.rgb o) = refl
from_start n ds (rgbw o w) = refl

-- `linear_format` assigns all its pixels, rather than failing its assertion, exactly when their
-- number is at most the total of universes times `512 / channels`.
pub is_some-linear_assignments :
    (n : ℕ) (ds : List DeviceSpec) (f : ColorFormat)
    → is_some (linear_assignments n ds f) ≡ leb n (total_universes ds * per_universe f)
is_some-linear_assignments n ds f = rw (from_start n ds f) (
    is_some-assign n f (all_slots ds [] 0) 0 0 (omega arith) (omega arith)
    ∙ ground (arith, length-all_slots ds [] 0))

fits : (i : ℕ) (f : ColorFormat) → i % per_universe f * channels f + channels f ≤ universe_size
fits i (ColorFormat.rgb o) = omega arith
fits i (rgbw o w) = omega arith

-- Pixel `i` of `linear_format` has the universe number `i / k` (as a `u16`) and the channel `(i %
-- k) * c`, keeps the format, and its bytes end within the universe, where `c` is the channels of
-- the format and `k = 512 / c`.
pub linear_assignments-position :
    (n i : ℕ) (ds : List DeviceSpec) (f : ColorFormat) (xs : List PixelPhysical) (a : PixelPhysical)
    → linear_assignments n ds f ≡ some xs
    → get_elem? xs i ≡ some a
    → (a.universe ≡ u16 (i / per_universe f))
      × (a.channel ≡ i % per_universe f * channels f)
      × (a.channel + channels f ≤ universe_size)
      × (a.format ≡ f)
linear_assignments-position n i ds f xs a e g =
    let p : IsPixel f (all_slots ds [] 0) 0 (0 + i) a =
      assign-IsPixel n f (all_slots ds [] 0) 0 0 i xs a (omega arith) (rw (from_start n ds f) at e)
        g in
    let z : 0 + i ≡ i = omega arith in
    let q : IsPixel f (all_slots ds [] 0) 0 i a = rw z at p in
    (
      all_slots-IsNumbered ds [] 0 (λ j d u h. cc) (omega arith) _ a.device a.universe q.0
          ∙ ground arith,
      q.1,
      omega (arith, q.1, fits i f),
      q.2,
    )
