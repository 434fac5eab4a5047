-- ===== src/Layout/LinearPosition.antt =====
-- Where `linear_format` puts each pixel, and when its universes suffice.
use led_platform.Prelude.{
  refl, zero, dec_lt, none, ◌≤◌, subst, ◌∷◌, ◌%◌, some, Option, ℕ, suc, ◌+◌, ◌*◌, ◌/◌, ◌<◌, ◌≡◌,
  List, get_elem?, arith,
}
use led_platform.Color.{ColorFormat, rgbw, channels}
use led_platform.Layout.Compile.{PixelPhysical, DeviceId}
use led_platform.Layout.Linear.{universe_size, assign, assign_at}

abbrev pub per_universe : ColorFormat → ℕ
per_universe f = universe_size / channels f

-- A round with room left, and one at the end of a universe.
pub assign-room :
    (n : ℕ) (f : ColorFormat) (slots : List (DeviceId × ℕ)) (slot q : ℕ)
    → q < per_universe f
    → assign (suc n) f slots slot (q * channels f)
      ≡ assign_at f
          (q * channels f)
          (get_elem? slots slot)
          (assign n f slots slot (suc q * channels f))
unfolding assign
assign-room n (ColorFormat.rgb o) slots slot q h = ground arith
assign-room n (rgbw o w) slots slot q h = ground arith

pub assign-full :
    (n : ℕ) (f : ColorFormat) (slots : List (DeviceId × ℕ)) (slot q : ℕ)
    → q ≡ per_universe f
    → assign (suc n) f slots slot (q * channels f)
      ≡ assign (suc n) f slots (slot + 1) (0 * channels f)
unfolding assign
assign-full n (ColorFormat.rgb o) slots slot q h = ground arith
assign-full n (rgbw o w) slots slot q h = ground arith

pub assign_at-inversion :
    (f : ColorFormat) (byte : ℕ) (o : Option (DeviceId × ℕ)) (rest : Option (List PixelPhysical))
    (xs : List PixelPhysical)
    → assign_at f byte o rest ≡ some xs
    → (d : DeviceId) × (u : ℕ) × (ys : List PixelPhysical) × (o ≡ some (d, u))
      × (rest ≡ some ys)
      × (xs ≡ record { device = d; universe = u; channel = byte; format = f } ∷ ys)
assign_at-inversion f byte (some (d, u)) (some ys) xs e = (d, u, ys, refl, refl, ground arith)
assign_at-inversion f byte (some (d, u)) none xs e = absurd (ground arith)
assign_at-inversion f byte none rest xs e = absurd (ground arith)

-- The pixel is pixel `p` of the universes from `slot` on: its universe is the one that `p` whole
-- universes of pixels reach, its channel its place there.
abbrev pub IsPixel : ColorFormat → List (DeviceId × ℕ) → ℕ → ℕ → PixelPhysical → Type 0
IsPixel f slots slot p a =
    (get_elem? slots (slot + p / per_universe f) ≡ some (a.device, a.universe))
    × (a.channel ≡ p % per_universe f * channels f)
    × (a.format ≡ f)

first-IsPixel :
    (f : ColorFormat) (slots : List (DeviceId × ℕ)) (slot q : ℕ) (a : PixelPhysical)
    → q < per_universe f
    → get_elem? slots slot ≡ some (a.device, a.universe)
    → a.channel ≡ q * channels f
    → a.format ≡ f
    → IsPixel f slots slot q a
first-IsPixel (ColorFormat.rgb o) slots slot q a h g c e = ground arith
first-IsPixel (rgbw o w) slots slot q a h g c e = ground arith

full-IsPixel :
    (f : ColorFormat) (slots : List (DeviceId × ℕ)) (slot q i : ℕ) (a : PixelPhysical)
    → q ≡ per_universe f
    → IsPixel f slots (slot + 1) (0 + i) a
    → IsPixel f slots slot (q + i) a
full-IsPixel (ColorFormat.rgb o) slots slot q i a h p = ground arith
full-IsPixel (rgbw o w) slots slot q i a h p = ground arith

pub per_universe-pos : (f : ColorFormat) → 0 < per_universe f
per_universe-pos (ColorFormat.rgb o) = omega arith
per_universe-pos (rgbw o w) = omega arith

room-IsPixel :
    (n : ℕ) (f : ColorFormat) (slots : List (DeviceId × ℕ)) (slot q i : ℕ) (xs : List PixelPhysical)
    (a : PixelPhysical)
    → q < per_universe f
    → assign (suc n) f slots slot (q * channels f) ≡ some xs
    → get_elem? xs i ≡ some a
    → ((j : ℕ) (ys : List PixelPhysical)
        → assign n f slots slot (suc q * channels f) ≡ some ys
        → get_elem? ys j ≡ some a
        → IsPixel f slots slot (suc q + j) a)
    → IsPixel f slots slot (q + i) a
room-IsPixel n f slots slot q i xs a h e g ih =
    let (d, u, ys, ps, pr, px) =
      assign_at-inversion f (q * channels f) (get_elem? slots slot) _ xs
        (rw (assign-room n f slots slot q h) at e) in
    go i ys ps pr (rw px at g)
  where
    go :
        {d : DeviceId} {u : ℕ} (i : ℕ) (ys : List PixelPhysical)
        → get_elem? slots slot ≡ some (d, u)
        → assign n f slots slot (suc q * channels f) ≡ some ys
        → get_elem?
            (record { device = d; universe = u; channel = q * channels f; format = f } ∷ ys)
            i
          ≡ some a
        → IsPixel f slots slot (q + i) a
    go zero ys ps pr g =
        subst (λ p. IsPixel f slots slot p a) (omega arith)
          (first-IsPixel f slots slot q a h (ground arith) (ground arith) (ground arith))
    go (suc j) ys ps pr g = subst (λ p. IsPixel f slots slot p a) (omega arith) (ih j ys pr g)

-- Pixel `i` of a run that starts with `q` pixels in the universe at `slot`.
pub assign-IsPixel :
    (n : ℕ) (f : ColorFormat) (slots : List (DeviceId × ℕ)) (slot q i : ℕ) (xs : List PixelPhysical)
    (a : PixelPhysical)
    → q ≤ per_universe f
    → assign n f slots slot (q * channels f) ≡ some xs
    → get_elem? xs i ≡ some a
    → IsPixel f slots slot (q + i) a
assign-IsPixel zero f slots slot q i xs a h e g = absurd (unfold assign in ground arith)
assign-IsPixel (suc n) f slots slot q i xs a h e g = elim (dec_lt q (per_universe f)) [
  | yes room ↦
      room-IsPixel n f slots slot q i xs a room e g
        λ j ys r s. assign-IsPixel n f slots slot (suc q) j ys a (omega arith) r s
  | no full ↦
      let end : q ≡ per_universe f = omega arith in
      full-IsPixel f slots slot q i a end (
        room-IsPixel n f slots (slot + 1) 0 i xs a (per_universe-pos f)
          (rw (assign-full n f slots slot q end) at e) g
          λ j ys r s. assign-IsPixel n f slots (slot + 1) 1 j ys a (per_universe-pos f) r s)
]
