-- ===== src/Layout/Linear.antt =====
-- crates/led-core/src/mapping.rs: `linear` and `linear_format`. `u16` additions wrap, as in a
-- release build.
use led_platform.Prelude.{
  ℕ, zero, suc, ◌+◌, List, [], ◌∷◌, ◌++◌, Option, none, some, if◌then◌else◌, ltb, get_elem?, u16,
}
use led_platform.Color.{RgbOrder, ColorFormat, channels}
use led_platform.Layout.Compile.{DeviceId, PixelPhysical, CompiledLayout, compile}

abbrev pub universe_size : ℕ
universe_size = 512

pub record DeviceSpec : Type 0 where
  pub id : DeviceId
  pub universes : ℕ

-- The inner loop over one device: the slots so far and the next universe number.
unfoldable pub push_slots : ℕ → DeviceId → List (DeviceId × ℕ) → ℕ → List (DeviceId × ℕ) × ℕ
push_slots zero id slots uni_no = (slots, uni_no)
push_slots (suc n) id slots uni_no = push_slots n id (slots ++ (id, uni_no) ∷ []) (u16 (uni_no + 1))

unfoldable pub all_slots : List DeviceSpec → List (DeviceId × ℕ) → ℕ → List (DeviceId × ℕ)
unfolding push_slots
all_slots [] slots uni_no = slots
all_slots (d ∷ ds) slots uni_no =
    let (slots', uni_no') = push_slots d.universes d.id slots uni_no in all_slots ds slots' uni_no'

-- `slots[slot]` after the `assert!`, and the push.
abbrev pub assign_at :
    ColorFormat
    → ℕ
    → Option (DeviceId × ℕ)
    → Option (List PixelPhysical)
    → Option (List PixelPhysical)
assign_at format byte (some (device, universe)) (some rest) =
    some (record { device = device; universe = universe; channel = byte; format = format } ∷ rest)
assign_at format byte _ _ = none

-- The loop over the pixels: those left, and the variables `slot` and `byte`.
unfoldable pub assign : ℕ → ColorFormat → List (DeviceId × ℕ) → ℕ → ℕ → Option (List PixelPhysical)
assign zero format slots slot byte = some []
assign (suc n) format slots slot byte =
    let full = ltb universe_size (byte + channels format) in
    let slot' = if full then slot + 1 else slot in
    let byte' : ℕ = if full then 0 else byte in
    assign_at format byte' (get_elem? slots slot')
      (assign n format slots slot' (u16 (byte' + channels format)))

unfoldable pub linear_assignments : ℕ → List DeviceSpec → ColorFormat → Option (List PixelPhysical)
unfolding all_slots assign
linear_assignments pixel_count devices format =
    assign pixel_count format (all_slots devices [] 0) 0 0

abbrev compile_all : Option (List PixelPhysical) → Option CompiledLayout
compile_all none = none
compile_all (some assignments) = compile assignments

unfoldable pub linear_format : ℕ → List DeviceSpec → ColorFormat → Option CompiledLayout
unfolding linear_assignments
linear_format pixel_count devices format =
    compile_all (linear_assignments pixel_count devices format)

unfoldable pub linear : ℕ → List DeviceSpec → RgbOrder → Option CompiledLayout
unfolding linear_format
linear pixel_count devices order = linear_format pixel_count devices (ColorFormat.rgb order)
