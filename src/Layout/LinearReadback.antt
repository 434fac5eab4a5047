-- ===== src/Layout/LinearReadback.antt =====
-- `linear_format`, `make_scratch` and `apply` together.
use led_platform.Prelude.{
  sym, Option-cases, inl, inr, u16, ◌%◌, ◌*◌, ◌+◌, ◌∙◌, List, [], ap, arith, get_elem?,
  is_some-get_elem?, length, length-replicate, map, refl, replicate, some, subst, suc, zero, ◌/◌,
  ◌<◌, ◌∷◌, ◌≡◌, ◌≤◌, ℕ,
}
use led_platform.Color.{PixelColor, ColorFormat, rgbw, channels, write}
use led_platform.Layout.Compile.{DeviceId, PixelPhysical, Target, CompiledLayout, compile}
use led_platform.Layout.Correct.{IsPlaced, AllPlaced, compile-AllPlaced}
use led_platform.Layout.Ranges.{uni_index-injective}
use led_platform.Layout.Linear.{
  DeviceSpec, universe_size, assign, all_slots, linear_assignments, linear_format,
}
use led_platform.Layout.LinearPosition.{per_universe, assign_at-inversion}
use led_platform.Layout.LinearCapacity.{
  total_universes, is_some-linear_assignments, linear_assignments-position,
}
use led_platform.Layout.Apply.{UniverseData, make_scratch, apply}
use led_platform.Layout.Channels.{channel_at, width}
use led_platform.Layout.Readback.{AllInside, IsDisjoint, apply-readback}

pub compile-AllPlaced_all :
    (xs : List PixelPhysical) {l : CompiledLayout} → compile xs ≡ some l → AllPlaced l xs l.targets
compile-AllPlaced_all xs {l} e =
    let (m, c, p) = compile-AllPlaced xs in
    let eq : m ≡ l = ground (arith, c) in subst (λ k. AllPlaced k xs k.targets) eq p

pub AllPlaced-target :
    (l : CompiledLayout) (xs : List PixelPhysical) (ts : List Target) (i : ℕ) (a : PixelPhysical)
    → AllPlaced l xs ts
    → get_elem? xs i ≡ some a
    → (t : Target) × (get_elem? ts i ≡ some t) × IsPlaced l a t
AllPlaced-target l [] [] i a p g = absurd (ground arith)
AllPlaced-target l (x ∷ xs) [] i a p g = absurd p
AllPlaced-target l [] (t ∷ ts) i a p g = absurd p
AllPlaced-target l (x ∷ xs) (t ∷ ts) zero a p g =
    (t, refl, subst (λ b. IsPlaced l b t) (ground arith) p.0)
AllPlaced-target l (x ∷ xs) (t ∷ ts) (suc i) a p g = AllPlaced-target l xs ts i a p.1 g

pub AllPlaced-source :
    (l : CompiledLayout) (xs : List PixelPhysical) (ts : List Target) (i : ℕ) (t : Target)
    → AllPlaced l xs ts
    → get_elem? ts i ≡ some t
    → (a : PixelPhysical) × (get_elem? xs i ≡ some a) × IsPlaced l a t
AllPlaced-source l [] [] i t p g = absurd (ground arith)
AllPlaced-source l (x ∷ xs) [] i t p g = absurd p
AllPlaced-source l [] (s ∷ ts) i t p g = absurd p
AllPlaced-source l (x ∷ xs) (s ∷ ts) zero t p g = (x, refl, subst (IsPlaced l x) (ground arith) p.0)
AllPlaced-source l (x ∷ xs) (s ∷ ts) (suc i) t p g = AllPlaced-source l xs ts i t p.1 g

length-assign :
    (n : ℕ) (f : ColorFormat) (slots : List (DeviceId × ℕ)) (slot byte : ℕ)
    (xs : List PixelPhysical)
    → assign n f slots slot byte ≡ some xs
    → length xs ≡ n
unfolding assign
length-assign zero f slots slot byte xs e = ground arith
length-assign (suc n) f slots slot byte xs e =
    let (d, u, ys, ps, pr, px) = assign_at-inversion f _ _ _ xs e in
    rw px (omega (arith, length-assign n f slots _ _ ys pr))

width-make_scratch :
    (us : List ℕ) (u v : ℕ)
    → get_elem? us u ≡ some v
    → width (map (λ x. record { universe = x; data_bytes = replicate universe_size 0 }) us) u
      ≡ universe_size
width-make_scratch [] u v g = absurd (ground arith)
width-make_scratch (x ∷ us) zero v g = length-replicate universe_size (let z : ℕ = 0 in z)
width-make_scratch (x ∷ us) (suc u) v g = width-make_scratch us u v g

div_small :
    (f : ColorFormat) (i total : ℕ)
    → i < total * per_universe f
    → total ≤ 65536
    → u16 (i / per_universe f) ≡ i / per_universe f
div_small (ColorFormat.rgb o) i total h s = omega arith
div_small (rgbw o w) i total h s = omega arith

-- Two pixels whose bytes share a channel of one universe are one.
same_pixel :
    (f : ColorFormat) (i k j : ℕ)
    → i / per_universe f ≡ k / per_universe f
    → i % per_universe f * channels f ≤ j
    → j < i % per_universe f * channels f + channels f
    → k % per_universe f * channels f ≤ j
    → j < k % per_universe f * channels f + channels f
    → i ≡ k
same_pixel (ColorFormat.rgb o) i k j e a b c d = omega arith
same_pixel (rgbw o w) i k j e a b c d = omega arith

-- The frame goes through, and byte `q` of pixel `i` stands in the universe whose number is that of
-- the full universes before the pixel, at the pixel's place there.
abbrev pub ReadsBack : ℕ → ColorFormat → CompiledLayout → List PixelColor → Type 0
ReadsBack n f l pixels =
    (s : List UniverseData) × (apply l pixels (make_scratch l) ≡ some s)
    × ((i q : ℕ) (px : PixelColor)
        → i < n
        → get_elem? pixels i ≡ some px
        → q < channels f
        → (u : ℕ) × (get_elem? l.universes u ≡ some (i / per_universe f))
          × (channel_at s u (i % per_universe f * channels f + q) ≡ get_elem? (write f px) q))

module _ (n : ℕ) (ds : List DeviceSpec) (f : ColorFormat) (xs : List PixelPhysical)
    (l : CompiledLayout) (small : total_universes ds ≤ 65536)
    (assigned : linear_assignments n ds f ≡ some xs) (compiled : compile xs ≡ some l) where
  index_lt : (i : ℕ) (a : PixelPhysical) → get_elem? xs i ≡ some a → i < n
  unfolding linear_assignments
  index_lt i a g =
      ground (arith, length-assign n f (all_slots ds [] 0) 0 0 xs assigned, is_some-get_elem? xs i)

  -- The number of a pixel's universe does not wrap.
  universe-of :
      (i : ℕ) (a : PixelPhysical) → get_elem? xs i ≡ some a → a.universe ≡ i / per_universe f
  universe-of i a g =
      (linear_assignments-position n i ds f xs a assigned g).0
      ∙ div_small f i (total_universes ds)
          (ground (arith, index_lt i a g, is_some-linear_assignments n ds f)) small

  linear-AllInside : AllInside l.targets (make_scratch l)
  unfolding make_scratch
  linear-AllInside i t g =
      let (a, q, p) = AllPlaced-source l xs l.targets i t (compile-AllPlaced_all xs compiled) g in
      omega (
        arith,
        width-make_scratch l.universes t.uni_index a.universe p.universe,
        linear_assignments-position n i ds f xs a assigned q,
        p.byte,
        ap channels p.format,
        ap channels (linear_assignments-position n i ds f xs a assigned q).3,
      )

  linear-IsDisjoint : IsDisjoint l.targets
  linear-IsDisjoint i k t v u j g h ct cv =
      let (a, qa, pa) = AllPlaced-source l xs l.targets i t (compile-AllPlaced_all xs compiled) g in
      let (b, qb, pb) = AllPlaced-source l xs l.targets k v (compile-AllPlaced_all xs compiled) h in
      let la = linear_assignments-position n i ds f xs a assigned qa in
      let lb = linear_assignments-position n k ds f xs b assigned qb in
      let fa = ap channels pa.format ∙ ap channels la.3 in
      let fb = ap channels pb.format ∙ ap channels lb.3 in
      let same : a.universe ≡ b.universe =
        (uni_index-injective xs a b t v compiled pa pb (ground arith)).1 in
      same_pixel f i k j (omega (arith, universe-of i a qa, universe-of k b qb))
        (ground (arith, pa.byte, la.1)) (ground (arith, pa.byte, la.1, fa))
        (ground (arith, pb.byte, lb.1)) (ground (arith, pb.byte, lb.1, fb))

  pixel_at : (i : ℕ) → i < n → (a : PixelPhysical) × (get_elem? xs i ≡ some a)
  unfolding linear_assignments
  pixel_at i h = elim (Option-cases (get_elem? xs i)) [
    | inl e ↦ absurd (
        ground
          (arith, length-assign n f (all_slots ds [] 0) 0 0 xs assigned, is_some-get_elem? xs i))
    | inr found ↦ found
  ]

  linear-ReadsBack : (pixels : List PixelColor) → ReadsBack n f l pixels
  linear-ReadsBack pixels =
      let (s, e, read) =
        apply-readback l pixels (make_scratch l) linear-AllInside linear-IsDisjoint in
      (
        s,
        e,
        λ i q px h g lt.
            let (a, ga) = pixel_at i h in
            let (t, gt, p) =
              AllPlaced-target l xs l.targets i a (compile-AllPlaced_all xs compiled) ga in
            let pos = linear_assignments-position n i ds f xs a assigned ga in
            let format : t.format ≡ f = p.format ∙ pos.3 in
            (
              t.uni_index,
              p.universe ∙ ap (λ (v : ℕ). some v) (universe-of i a ga),
              ap (λ (b : ℕ). channel_at s t.uni_index (b + q)) (sym (p.byte ∙ pos.1))
                  ∙ read i q px t g gt (omega (arith, ap channels format))
                  ∙ ap (λ (h : ColorFormat). get_elem? (write h px) q) format,
            ),
      )

-- With at most 65,536 universes, a layout that `linear_format` returns sends a frame without a
-- panic from fresh scratch; byte `q` of each pixel `i` below the pixel count that the frame has is
-- then read in the universe numbered `i / k`, at channel `(i % k) * c + q`, where the format has
-- `c` channels a pixel and `k = 512 / c`.
pub linear_format-ReadsBack :
    (n : ℕ) (ds : List DeviceSpec) (f : ColorFormat) (l : CompiledLayout) (pixels : List PixelColor)
    → total_universes ds ≤ 65536
    → linear_format n ds f ≡ some l
    → ReadsBack n f l pixels
unfolding linear_format
linear_format-ReadsBack n ds f l pixels small e = elim (Option-cases (linear_assignments n ds f)) [
  | inl none_left ↦ absurd (ground arith)
  | inr (xs, a) ↦ linear-ReadsBack n ds f xs l small a (ground arith) pixels
]
