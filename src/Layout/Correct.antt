-- ===== src/Layout/Correct.antt =====
-- `CompiledLayout::compile` as a whole: it never panics, every pixel has a target in its own
-- universe, and the devices' ranges follow one another over the scratch.
use led_platform.Prelude.{
  ℕ, ◌≤◌, ◌<◌, ◌≡◌, refl, ◌∙◌, ap, inl, inr, true, List, [], ◌∷◌, none, some, ◌==◌, ==_iff, length,
  get_elem?, get_elem?-append_left, arith, Bool-cases,
}
use led_platform.Layout.Compile.{
  DeviceId, Range, PixelPhysical, Target, CompiledLayout, Built, index_universes, index_devices,
  index_at, find_range, device_range, compile, build, per_device, targets_of,
}
use led_platform.Layout.Index.{
  holds, absent, Unique, AllHeld, per_device-Unique, per_device-AllHeld, ranges-index_universes,
}
use led_platform.Layout.Placement.{
  index_universes-IsIndexed, index_at-index_devices, find_range-append, find_range-index_devices,
  flat, universes-index_devices,
}

-- The key's index and the device's range around it.
pub record IsPlacedAt (dev u i : ℕ) (r : Range) (b : Built) : Type 0 where
  pub key : index_at dev u b.index_of ≡ some i
  pub value : get_elem? b.universes i ≡ some u
  pub range : find_range dev b.device_ranges ≡ some r
  pub from : r.start ≤ i
  pub below : i < r.end

index_devices-IsPlacedAt :
    (pd : List (DeviceId × List ℕ)) (b : Built) (dev u : ℕ)
    → Unique pd
    → holds dev u pd ≡ true
    → find_range dev b.device_ranges ≡ none
    → (i : ℕ) × (r : Range) × IsPlacedAt dev u i r (index_devices pd b)
unfolding index_devices
index_devices-IsPlacedAt [] b dev u q h n = absurd (ground arith)
index_devices-IsPlacedAt ((d, us) ∷ pd) b dev u q h n = elim (Bool-cases (d == dev)) [
  | inr other ↦
      index_devices-IsPlacedAt pd _ dev u q.1 (rw other at h)
        (find_range-append _ d _ dev ∙ ground (arith, ranges-index_universes d us b))
  | inl here ↦
      let e : d ≡ dev = (==_iff d dev).0 here in
      let gone : absent dev pd ≡ true = ground arith in
      let (i, p) = index_universes-IsIndexed d us b u (rw here at h) in
      let r : Range = record {
        start = length b.universes;
        end = length (index_universes d us b).universes;
      } in
      (
        i,
        r,
        record {
          key = index_at-index_devices pd _ dev u gone ∙ ground (arith, p.key);
          value =
              ap (λ (xs : List ℕ). get_elem? xs i) (universes-index_devices pd _)
              ∙ get_elem?-append_left (index_universes d us b).universes (flat pd) i p.below
              ∙ p.value;
          range =
              find_range-index_devices pd _ dev gone
              ∙ find_range-append _ d r dev
              ∙ ground (arith, ranges-index_universes d us b);
          from = p.from;
          below = p.below;
        },
      )
]

-- The assignment `a` has the target `t` in the layout `l`: its universe stands at the target's
-- index, inside the range of its device.
pub record IsPlaced (l : CompiledLayout) (a : PixelPhysical) (t : Target) : Type 0 where
  pub range : Range
  pub device : device_range l a.device ≡ some range
  pub from : range.start ≤ t.uni_index
  pub below : t.uni_index < range.end
  pub universe : get_elem? l.universes t.uni_index ≡ some a.universe
  pub byte : t.byte ≡ a.channel
  pub format : t.format ≡ a.format

abbrev pub AllPlaced : CompiledLayout → List PixelPhysical → List Target → Type 0
AllPlaced l [] [] = Unit {0}
AllPlaced l (a ∷ xs) (t ∷ ts) = IsPlaced l a t × AllPlaced l xs ts
AllPlaced l _ _ = ⊥

-- The targets exist, and each is placed in every layout over the same tables.
targets_of-AllPlaced :
    (pd : List (DeviceId × List ℕ)) (b₀ : Built) (xs : List PixelPhysical)
    → Unique pd
    → b₀.device_ranges ≡ []
    → AllHeld pd xs
    → let b = index_devices pd b₀ in
      (ts : List Target) × (targets_of xs b.index_of ≡ some ts)
      × ((l : CompiledLayout)
          → l.universes ≡ b.universes
          → l.device_ranges ≡ b.device_ranges
          → AllPlaced l xs ts)
unfolding targets_of device_range
targets_of-AllPlaced pd b₀ [] q z h = ([], refl, λ l lu lr. tt)
targets_of-AllPlaced pd b₀ (a ∷ xs) q z h =
    let (ts, found, placed) = targets_of-AllPlaced pd b₀ xs q z h.1 in
    let (i, r, p) =
      index_devices-IsPlacedAt pd b₀ a.device a.universe q h.0 (rw z (unfold find_range in refl)) in
    (
      record { uni_index = i; byte = a.channel; format = a.format } ∷ ts,
      ground (arith, p.key),
      λ l lu lr. (
        record {
          range = r;
          device = ap (find_range a.device) lr ∙ p.range;
          from = p.from;
          below = p.below;
          universe = ap (λ (us : List ℕ). get_elem? us i) lu ∙ p.value;
          byte = refl;
          format = refl;
        },
        placed l lu lr,
      ),
    )

abbrev no_tables : Built
no_tables = record { universes = []; device_ranges = []; index_of = [] }

-- `compile` never panics, and gives every assignment, in order, a target with its channel and
-- format whose index has the universe of the assignment and lies in the range of its device.
pub compile-AllPlaced :
    (xs : List PixelPhysical)
    → (l : CompiledLayout) × (compile xs ≡ some l) × AllPlaced l xs l.targets
unfolding compile
compile-AllPlaced xs =
    let (ts, found, placed) =
      targets_of-AllPlaced (per_device xs []) no_tables xs (per_device-Unique xs [] tt) refl
        (per_device-AllHeld xs []) in
    let b : Built = build xs in
    let l : CompiledLayout = record {
      targets = ts;
      universes = b.universes;
      device_ranges = b.device_ranges;
    } in
    (l, ground (arith, found), placed l refl refl)
