-- ===== src/Layout/Placement.antt =====
-- Where `CompiledLayout::compile` puts a pixel.
use mathlib.Core.List.{append_assoc}
use led_platform.Prelude.{
  ℕ, ◌≤◌, ◌<◌, ◌≡◌, refl, sym, ◌∙◌, ap, inl, inr, true, List, [], ◌∷◌, ◌++◌, none, some, ◌==◌,
  if◌then◌else◌, length, length-append, get_elem?, get_elem?-append_length, arith, Bool-cases,
}
use led_platform.Layout.Compile.{
  DeviceId, Range, contains, Built, index_universes, index_devices, index_at, find_range,
}
use led_platform.Layout.Index.{
  absent, universes-index_universes, ranges-index_universes, index_at-index_universes_ne,
}

-- The key's index, at or after `lo`, where its universe stands.
pub record IsIndexed (dev u lo i : ℕ) (b : Built) : Type 0 where
  pub key : index_at dev u b.index_of ≡ some i
  pub value : get_elem? b.universes i ≡ some u
  pub from : lo ≤ i
  pub below : i < length b.universes

pub index_universes-IsIndexed :
    (dev : ℕ) (us : List ℕ) (b : Built) (u : ℕ)
    → contains us u ≡ true
    → (i : ℕ) × IsIndexed dev u (length b.universes) i (index_universes dev us b)
unfolding index_universes contains
index_universes-IsIndexed dev [] b u h = absurd (ground arith)
index_universes-IsIndexed dev (v ∷ us) b u h = elim (Bool-cases (contains us u)) [
  | inl later ↦
      let (i, p) = index_universes-IsIndexed dev us next u later in
      (
        i,
        record {
          key = p.key;
          value = p.value;
          from = omega (arith, p.from, length-append b.universes (v ∷ []));
          below = p.below;
        },
      )
  | inr last ↦ (
    length b.universes,
    record {
      key =
          index_at-index_universes_ne dev us next dev u (rw last (ground arith))
          ∙ unfold index_at in ground (arith, last);
      value =
          ap (λ (xs : List ℕ). get_elem? xs (length b.universes))
            (universes-index_universes dev us next ∙ append_assoc b.universes (v ∷ []) us)
          ∙ get_elem?-append_length b.universes us v
          ∙ ground (arith, last);
      from = omega arith;
      below = omega (
        arith,
        ap length (universes-index_universes dev us next),
        length-append (b.universes ++ v ∷ []) us,
        length-append b.universes (v ∷ []),
      );
    },
  )
]
  where
    next : Built
    next = record b {
      index_of = ((dev, v), length b.universes) ∷ b.index_of;
      universes = b.universes ++ v ∷ [];
    }

-- A device that is still to come has no key and no range yet; one that is past keeps both.
pub index_at-index_devices :
    (pd : List (DeviceId × List ℕ)) (b : Built) (dev u : ℕ)
    → absent dev pd ≡ true
    → index_at dev u (index_devices pd b).index_of ≡ index_at dev u b.index_of
unfolding index_devices
index_at-index_devices [] b dev u h = refl
index_at-index_devices ((d, us) ∷ pd) b dev u h =
    index_at-index_devices pd _ dev u (ground arith)
    ∙ index_at-index_universes_ne d us b dev u (ground arith)

pub find_range-append :
    (xs : List (DeviceId × Range)) (d : DeviceId) (r : Range) (id : DeviceId)
    → find_range id (xs ++ (d, r) ∷ [])
      ≡ elim (find_range id xs) [ none ↦ if d == id then some r else none | some s ↦ some s ]
unfolding find_range
find_range-append [] d r id = ground arith
find_range-append ((e, s) ∷ xs) d r id = ground (arith, find_range-append xs d r id)

pub find_range-index_devices :
    (pd : List (DeviceId × List ℕ)) (b : Built) (dev : ℕ)
    → absent dev pd ≡ true
    → find_range dev (index_devices pd b).device_ranges ≡ find_range dev b.device_ranges
unfolding index_devices
find_range-index_devices [] b dev h = refl
find_range-index_devices ((d, us) ∷ pd) b dev h =
    find_range-index_devices pd _ dev (ground arith)
    ∙ ground (
      arith,
      ranges-index_universes d us b,
      find_range-append (index_universes d us b).device_ranges d
          (record { start = length b.universes; end = length (index_universes d us b).universes })
          dev,
    )

pub flat : List (DeviceId × List ℕ) → List ℕ
flat [] = []
flat ((d, us) ∷ pd) = us ++ flat pd

pub universes-index_devices :
    (pd : List (DeviceId × List ℕ)) (b : Built)
    → (index_devices pd b).universes ≡ b.universes ++ flat pd
unfolding index_devices flat
universes-index_devices [] b = sym (mathlib.Core.List.append-nil b.universes)
universes-index_devices ((d, us) ∷ pd) b =
    universes-index_devices pd _
    ∙ ap (λ (xs : List ℕ). xs ++ flat pd) (universes-index_universes d us b)
    ∙ append_assoc b.universes us (flat pd)
