-- ===== src/Layout/Compile.antt =====
-- crates/led-core/src/mapping.rs: `CompiledLayout::compile`.
use led_platform.Prelude.{
  ℕ, Bool, false, ◌&&◌, ◌||◌, List, [], ◌∷◌, ◌++◌, Option, none, some, if◌then◌else◌, ◌==◌, length,
}
use led_platform.Color.{ColorFormat}

abbrev pub DeviceId : Type 0
DeviceId = ℕ

-- One pixel's physical destination (`PixelPhysical` of types.rs).
pub record PixelPhysical : Type 0 where
  pub device : DeviceId
  pub universe : ℕ
  pub channel : ℕ
  pub format : ColorFormat

pub record Target : Type 0 where
  pub uni_index : ℕ
  pub byte : ℕ
  pub format : ColorFormat

-- `Range<usize>`.
pub record Range : Type 0 where
  pub start : ℕ
  pub end : ℕ

-- The counter `apply_count` is left out: nothing reads it but tests.
pub record CompiledLayout : Type 0 where
  pub targets : List Target
  pub universes : List ℕ
  pub device_ranges : List (DeviceId × Range)

unfoldable pub contains : List ℕ → ℕ → Bool
contains [] u = false
contains (v ∷ vs) u = v == u || contains vs u

-- One round of the first loop: the device's entry, made if it is missing, gets the universe unless
-- it has it.
unfoldable pub add_universe : DeviceId → ℕ → List (DeviceId × List ℕ) → List (DeviceId × List ℕ)
unfolding contains
add_universe dev u [] = (dev, u ∷ []) ∷ []
add_universe dev u ((d, us) ∷ rest) =
    if d == dev
    then (d, if contains us u then us else us ++ u ∷ []) ∷ rest
    else (d, us) ∷ add_universe dev u rest

unfoldable pub per_device : List PixelPhysical → List (DeviceId × List ℕ) → List (DeviceId × List ℕ)
unfolding add_universe
per_device [] acc = acc
per_device (a ∷ as') acc = per_device as' (add_universe a.device a.universe acc)

-- The values that the second loop builds. The map has its newest entry first.
pub record Built : Type 0 where
  pub universes : List ℕ
  pub device_ranges : List (DeviceId × Range)
  pub index_of : List ((DeviceId × ℕ) × ℕ)

unfoldable pub index_universes : DeviceId → List ℕ → Built → Built
index_universes dev [] b = b
index_universes dev (u ∷ us) b = index_universes dev us (record b {
  index_of = ((dev, u), length b.universes) ∷ b.index_of;
  universes = b.universes ++ u ∷ [];
})

abbrev pub close_range : DeviceId → ℕ → Built → Built
close_range dev start b = record b {
  device_ranges = b.device_ranges ++ (dev, record { start = start; end = length b.universes }) ∷ [];
}

unfoldable pub index_devices : List (DeviceId × List ℕ) → Built → Built
unfolding index_universes
index_devices [] b = b
index_devices ((dev, us) ∷ rest) b =
    index_devices rest (close_range dev (length b.universes) (index_universes dev us b))

unfoldable pub index_at : DeviceId → ℕ → List ((DeviceId × ℕ) × ℕ) → Option ℕ
index_at dev u [] = none
index_at dev u (((d, v), i) ∷ m) = if d == dev && v == u then some i else index_at dev u m

-- The third loop; `index_of[…]` panics on a missing key.
abbrev target_of : Option ℕ → PixelPhysical → Option Target
target_of none a = none
target_of (some i) a = some (record { uni_index = i; byte = a.channel; format = a.format })

abbrev push_target : Option Target → Option (List Target) → Option (List Target)
push_target (some t) (some ts) = some (t ∷ ts)
push_target _ _ = none

unfoldable pub targets_of : List PixelPhysical → List ((DeviceId × ℕ) × ℕ) → Option (List Target)
unfolding index_at
targets_of [] m = some []
targets_of (a ∷ as') m =
    push_target (target_of (index_at a.device a.universe m) a) (targets_of as' m)

abbrev pub build : List PixelPhysical → Built
build assignments =
    index_devices (per_device assignments [])
      (record { universes = []; device_ranges = []; index_of = [] })

abbrev layout_of : Built → Option (List Target) → Option CompiledLayout
layout_of b none = none
layout_of b (some targets) =
    some (record { targets = targets; universes = b.universes; device_ranges = b.device_ranges })

unfoldable pub compile : List PixelPhysical → Option CompiledLayout
unfolding per_device index_devices targets_of
compile assignments =
    layout_of (build assignments) (targets_of assignments (build assignments).index_of)

unfoldable pub find_range : DeviceId → List (DeviceId × Range) → Option Range
find_range id [] = none
find_range id ((d, r) ∷ rest) = if d == id then some r else find_range id rest

unfoldable pub device_range : CompiledLayout → DeviceId → Option Range
unfolding find_range
device_range l id = find_range id l.device_ranges
