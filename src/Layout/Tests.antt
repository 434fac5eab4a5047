-- ===== src/Layout/Tests.antt =====
-- The theorems of the layout at a rig of two strips.
use led_platform.Prelude.{List, [], arith, refl, some, ◌∷◌, ◌≡◌}
use led_platform.Color.{
  PixelColor, grb, ColorFormat, rgbw, min_subtract, WhiteMode, write, AllBytes, write-AllBytes,
}
use led_platform.Layout.Compile.{PixelPhysical, CompiledLayout, compile}
use led_platform.Layout.Linear.{DeviceSpec, linear_format}
use led_platform.Layout.LinearReadback.{ReadsBack, linear_format-ReadsBack}

abbrev amber : PixelColor
amber = record { r = 200; g = 100; b = 50 }

amber_rgbw : write (rgbw grb min_subtract) amber ≡ 50 ∷ 150 ∷ 0 ∷ 50 ∷ []
unfolding write
amber_rgbw = refl

write-AllBytes_example : AllBytes (write (rgbw grb WhiteMode.min) amber)
write-AllBytes_example = write-AllBytes (rgbw grb WhiteMode.min) amber (omega arith)

abbrev strip : ColorFormat
strip = ColorFormat.rgb grb

-- Two pixels of device 1 in universes 0 and 1, and one of device 2.
abbrev at_0 : PixelPhysical
at_0 = record { device = 1; universe = 0; channel = 0; format = strip }

abbrev at_1 : PixelPhysical
at_1 = record { device = 2; universe = 5; channel = 0; format = strip }

abbrev at_2 : PixelPhysical
at_2 = record { device = 1; universe = 1; channel = 3; format = strip }

abbrev rig : List PixelPhysical
rig = at_0 ∷ at_1 ∷ at_2 ∷ []

abbrev rig_layout : CompiledLayout
rig_layout = record {
  targets =
      record { uni_index = 0; byte = 0; format = strip }
      ∷ record { uni_index = 2; byte = 0; format = strip }
      ∷ record { uni_index = 1; byte = 3; format = strip }
      ∷ [];
  universes = 0 ∷ 1 ∷ 5 ∷ [];
  device_ranges = (1, record { start = 0; end = 2 }) ∷ (2, record { start = 2; end = 3 }) ∷ [];
}

rig_compiles : compile rig ≡ some rig_layout
unfolding compile
rig_compiles = refl

abbrev specs : List DeviceSpec
specs = record { id = 1; universes = 1 } ∷ record { id = 2; universes = 2 } ∷ []

abbrev pair_layout : CompiledLayout
pair_layout = record {
  targets =
      record { uni_index = 0; byte = 0; format = strip }
      ∷ record { uni_index = 0; byte = 3; format = strip }
      ∷ [];
  universes = 0 ∷ [];
  device_ranges = (1, record { start = 0; end = 1 }) ∷ [];
}

pair_compiles : linear_format 2 specs strip ≡ some pair_layout
unfolding linear_format compile
pair_compiles = refl

linear_format-ReadsBack_example : ReadsBack 2 strip pair_layout (amber ∷ amber ∷ [])
linear_format-ReadsBack_example =
    linear_format-ReadsBack 2 specs strip pair_layout (amber ∷ amber ∷ []) (omega arith)
      pair_compiles
