-- ===== src/Layout/Apply.antt =====
-- crates/led-core/src/mapping.rs: `make_scratch` and `apply`; `UniverseData` of types.rs.
use led_platform.Prelude.{
  List, Option, [], get_elem?, if◌then◌else◌, leb, length, map, none, replicate, set, some, suc,
  zero, ◌+◌, ◌∷◌, ℕ,
}
use led_platform.Color.{PixelColor, channels, write}
use led_platform.Layout.Compile.{Target, CompiledLayout}
use led_platform.Layout.Linear.{universe_size}

pub record UniverseData : Type 0 where
  pub universe : ℕ
  pub data_bytes : List ℕ

unfoldable pub make_scratch : CompiledLayout → List UniverseData
make_scratch l =
    map (λ u. record { universe = u; data_bytes = replicate universe_size 0 }) l.universes

-- Writing to the first places of a slice, and to those from an index on.
unfoldable pub overwrite : List ℕ → List ℕ → List ℕ
overwrite xs [] = xs
overwrite [] (b ∷ bs) = []
overwrite (x ∷ xs) (b ∷ bs) = b ∷ overwrite xs bs

unfoldable pub splice : List ℕ → ℕ → List ℕ → List ℕ
unfolding overwrite
splice xs zero bs = overwrite xs bs
splice [] (suc i) bs = []
splice (x ∷ xs) (suc i) bs = x ∷ splice xs i bs

-- `t.format.write(*px, &mut chan[t.byte..t.byte + n])`.
abbrev write_universe :
    List UniverseData → Target → PixelColor → Option UniverseData → Option (List UniverseData)
write_universe scratch t px none = none
write_universe scratch t px (some u) =
    if leb (t.byte + channels t.format) (length u.data_bytes)
    then some (
        set scratch t.uni_index
          (record u { data_bytes = splice u.data_bytes t.byte (write t.format px) }))
    else none

unfoldable pub apply_pixel : Target → PixelColor → List UniverseData → Option (List UniverseData)
unfolding splice
apply_pixel t px scratch = write_universe scratch t px (get_elem? scratch t.uni_index)

-- The loop from pixel `id` on. A pixel without a target is skipped.
unfoldable pub apply_from :
    List Target → ℕ → List PixelColor → List UniverseData → Option (List UniverseData)
unfolding apply_pixel
apply_from targets id [] scratch = some scratch
apply_from targets id (px ∷ pixels) scratch = elim (get_elem? targets id) [
  | none ↦ apply_from targets (suc id) pixels scratch
  | some t ↦ elim (apply_pixel t px scratch) [
    | none ↦ none
    | some scratch' ↦ apply_from targets (suc id) pixels scratch'
  ]
]

unfoldable pub apply :
    CompiledLayout → List PixelColor → List UniverseData → Option (List UniverseData)
unfolding apply_from
apply l pixels scratch = apply_from l.targets 0 pixels scratch
