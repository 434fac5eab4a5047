-- ===== src/Layout/Ranges.antt =====
-- The devices' ranges of a compiled layout: contiguous in the scratch, and disjoint.
use led_platform.Prelude.{
  ℕ, ◌≤◌, ◌<◌, ◌≡◌, refl, sym, ◌∙◌, ap, List, [], ◌∷◌, ◌++◌, some, length, length-append, arith,
  get_elem?,
}
use led_platform.Layout.Compile.{
  DeviceId, Range, PixelPhysical, Target, CompiledLayout, Built, index_universes, add_universe,
  index_devices, find_range, device_range, close_range, compile, build, per_device,
}
use led_platform.Layout.Index.{universes-index_universes, ranges-index_universes}
use led_platform.Layout.Correct.{IsPlaced}

-- The ranges follow one another from `n` on, none of them empty, and end at `total`.
abbrev pub Contiguous : ℕ → List (DeviceId × Range) → ℕ → Type 0
Contiguous n [] total = n ≡ total
Contiguous n ((d, r) ∷ rest) total = (r.start ≡ n) × (r.start < r.end) × Contiguous r.end rest total

Contiguous-append :
    (n m : ℕ) (xs : List (DeviceId × Range)) (d : DeviceId) (r : Range)
    → Contiguous n xs m
    → r.start ≡ m
    → m < r.end
    → Contiguous n (xs ++ (d, r) ∷ []) r.end
Contiguous-append n m [] d r c e h = (e ∙ sym c, omega arith, refl)
Contiguous-append n m ((f, s) ∷ xs) d r c e h = (c.0, c.1, Contiguous-append s.end m xs d r c.2 e h)

abbrev AllNonempty : List (DeviceId × List ℕ) → Type 0
AllNonempty [] = Unit {0}
AllNonempty ((d, us) ∷ pd) = (0 < length us) × AllNonempty pd

add_universe-AllNonempty :
    (d u : ℕ) (pd : List (DeviceId × List ℕ)) → AllNonempty pd → AllNonempty (add_universe d u pd)
unfolding add_universe
add_universe-AllNonempty d u [] h = (omega arith, tt)
add_universe-AllNonempty d u ((e, us) ∷ pd) h =
    ground (arith, add_universe-AllNonempty d u pd h.1, length-append us (u ∷ []))

per_device-AllNonempty :
    (xs : List PixelPhysical) (acc : List (DeviceId × List ℕ))
    → AllNonempty acc
    → AllNonempty (per_device xs acc)
unfolding per_device
per_device-AllNonempty [] acc h = h
per_device-AllNonempty (a ∷ xs) acc h =
    per_device-AllNonempty xs (add_universe a.device a.universe acc)
      (add_universe-AllNonempty a.device a.universe acc h)

index_devices-Contiguous :
    (pd : List (DeviceId × List ℕ)) (b : Built)
    → AllNonempty pd
    → Contiguous 0 b.device_ranges (length b.universes)
    → let b' = index_devices pd b in Contiguous 0 b'.device_ranges (length b'.universes)
unfolding index_devices
index_devices-Contiguous [] b h c = c
index_devices-Contiguous ((d, us) ∷ pd) b h c =
    let b' = index_universes d us b in
    let r : Range = record { start = length b.universes; end = length b'.universes } in
    index_devices-Contiguous pd (close_range d (length b.universes) b') h.1 (
      rw (ranges-index_universes d us b) (
        Contiguous-append 0 (length b.universes) b.device_ranges d r c refl (
          omega
            (arith, ap length (universes-index_universes d us b), length-append b.universes us))))

compile-tables :
    (xs : List PixelPhysical) {l : CompiledLayout}
    → compile xs ≡ some l
    → (l.universes ≡ (build xs).universes) × (l.device_ranges ≡ (build xs).device_ranges)
unfolding compile
compile-tables xs e = ground arith

-- The device ranges of a compiled layout are not empty, follow one another from 0 without a gap,
-- and end at the number of universes.
compile-Contiguous :
    (xs : List PixelPhysical) {l : CompiledLayout}
    → compile xs ≡ some l
    → Contiguous 0 l.device_ranges (length l.universes)
unfolding compile
compile-Contiguous xs {l} e =
    let b : Built = build xs in
    let c : Contiguous 0 b.device_ranges (length b.universes) =
      index_devices-Contiguous (per_device xs [])
        (record { universes = []; device_ranges = []; index_of = [] })
        (per_device-AllNonempty xs [] tt) refl in
    rw ((compile-tables xs e).0, (compile-tables xs e).1) c

find_range-from :
    (n total : ℕ) (rs : List (DeviceId × Range)) (d : DeviceId) (r : Range)
    → Contiguous n rs total
    → find_range d rs ≡ some r
    → n ≤ r.start
unfolding find_range
find_range-from n total [] d r c e = absurd (ground arith)
find_range-from n total ((f, s) ∷ rs) d r c e =
    ground (arith, find_range-from s.end total rs d r c.2)

find_range-disjoint :
    (n total : ℕ) (rs : List (DeviceId × Range)) (d e i : ℕ) (r s : Range)
    → Contiguous n rs total
    → find_range d rs ≡ some r
    → find_range e rs ≡ some s
    → r.start ≤ i
    → i < r.end
    → s.start ≤ i
    → i < s.end
    → d ≡ e
unfolding find_range
find_range-disjoint n total [] d e i r s c p q r0 r1 s0 s1 = absurd (ground arith)
find_range-disjoint n total ((f, t) ∷ rs) d e i r s c p q r0 r1 s0 s1 = ground (
  arith,
  find_range-from t.end total rs d r c.2,
  find_range-from t.end total rs e s c.2,
  find_range-disjoint t.end total rs d e i r s c.2,
)

-- In a compiled layout two assignments whose targets share a universe of the scratch have the same
-- device and the same universe number.
pub uni_index-injective :
    (xs : List PixelPhysical) (a b : PixelPhysical) (t u : Target) {l : CompiledLayout}
    → compile xs ≡ some l
    → IsPlaced l a t
    → IsPlaced l b u
    → t.uni_index ≡ u.uni_index
    → (a.device ≡ b.device) × (a.universe ≡ b.universe)
unfolding device_range
uni_index-injective xs a b t u {l} c p q e = (
  find_range-disjoint 0 (length l.universes) l.device_ranges a.device b.device t.uni_index p.range
      q.range (compile-Contiguous xs c) p.device q.device p.from p.below (omega (arith, q.from))
      (omega (arith, q.below)),
  ground (arith, p.universe, q.universe, ap (get_elem? l.universes) e),
)

Contiguous-le : (n total : ℕ) (rs : List (DeviceId × Range)) → Contiguous n rs total → n ≤ total
Contiguous-le n total [] c = omega (arith, c)
Contiguous-le n total ((d, r) ∷ rs) c = omega (arith, c.0, c.1, Contiguous-le r.end total rs c.2)

find_range-inside :
    (n total : ℕ) (rs : List (DeviceId × Range)) (d : DeviceId) (r : Range)
    → Contiguous n rs total
    → find_range d rs ≡ some r
    → (r.start < r.end) × (r.end ≤ total)
unfolding find_range
find_range-inside n total [] d r c e = absurd (ground arith)
find_range-inside n total ((f, s) ∷ rs) d r c e =
    ground (arith, c.1, Contiguous-le s.end total rs c.2, find_range-inside s.end total rs d r c.2)

-- The range of a device of a compiled layout lies within the universes.
pub device_range-inside :
    (xs : List PixelPhysical) (l : CompiledLayout) (d : DeviceId) (r : Range)
    → compile xs ≡ some l
    → device_range l d ≡ some r
    → (r.start < r.end) × (r.end ≤ length l.universes)
unfolding device_range
device_range-inside xs l d r c e =
    find_range-inside 0 (length l.universes) l.device_ranges d r (compile-Contiguous xs c) e
