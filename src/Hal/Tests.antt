-- ===== src/Hal/Tests.antt =====
-- A cluster of two segments, the second of which fails, and a strip on a simulated device.
use led_platform.Prelude.{
  refl, suc, true, zero, ◌-◌, [], false, if◌then◌else◌, ◌==◌, ◌↔◌, ◌∷◌, Option, List, ℕ, ◌≡◌, some,
  none,
}
use led_platform.Hal.Cluster.{new_cluster, send_frame}
use led_platform.Hal.Cluster.Health.{
  AllSound, Settled, NoneTakes, calls, calls-AllSound, send_frame-Settled, joins, rejoins, frames,
  Call,
}
use led_platform.Color.{PixelColor, grb, write, ColorFormat}
use led_platform.Layout.Compile.{PixelPhysical, CompiledLayout, compile, device_range}
use led_platform.Layout.Apply.{UniverseData, apply}
use led_platform.Hal.Calibration.{CalibrationLut, lut_of, apply_in_place}
use led_platform.Hal.Output.{sent, send_frame as send_all}
use led_platform.Hal.Output.Delivery.{AllConnected, Twin, delivered, hal, send_frame-delivered}
use led_platform.Hal.Simulator.{SimulatorDevice, simulator, copy_all, copy_universe, send_physical}

abbrev second_fails : ℕ → Option ℕ
second_fails i = if i == 1 then some 7 else none

abbrev history : List (Call ℕ)
history = frames second_fails 10 2 [] 9 ∷ joins ∷ rejoins 1 ∷ frames second_fails 20 2 [] 9 ∷ []

calls-AllSound_example : AllSound (calls (new_cluster 2 5) history).segments
calls-AllSound_example = calls-AllSound 2 5 history

send_frame-Settled_example :
    Settled second_fails 0
      (new_cluster 2 5).segments
      (send_frame second_fails 30 2 [] 9 (new_cluster 2 5)).0.segments
    × (((send_frame second_fails 30 2 [] 9 (new_cluster 2 5)).1 ≡ false)
        ↔ NoneTakes second_fails 0 (new_cluster 2 5).segments)
    × ((send_frame second_fails 30 2 [] 9 (new_cluster 2 5)).0.last_frame ≡ some ([], 9))
send_frame-Settled_example = send_frame-Settled second_fails 30 2 [] 9 (new_cluster 2 5)

-- A strip of one pixel on one simulated device, with a table that turns a byte over.
abbrev flip : ℕ → List ℕ → List ℕ
flip zero acc = acc
flip (suc n) acc = flip n ((255 - n) ∷ acc)

abbrev table : CalibrationLut
table = flip 256 []

abbrev pixel_at : PixelPhysical
pixel_at = record { device = 1; universe = 4; channel = 0; format = ColorFormat.rgb grb }

abbrev strip : CompiledLayout
strip = record {
  targets = record { uni_index = 0; byte = 0; format = ColorFormat.rgb grb } ∷ [];
  universes = 4 ∷ [];
  device_ranges = (1, record { start = 0; end = 1 }) ∷ [];
}

strip_compiles : compile (pixel_at ∷ []) ≡ some strip
unfolding compile
strip_compiles = refl

abbrev dark : List UniverseData
dark = record { universe = 4; data_bytes = 0 ∷ 0 ∷ 0 ∷ [] } ∷ []

abbrev lit : List UniverseData
lit = record { universe = 4; data_bytes = 100 ∷ 200 ∷ 50 ∷ [] } ∷ []

abbrev device : SimulatorDevice
device = record {
  id = 1;
  connected = true;
  frames_sent = 0;
  config = record { name = none; priority = none };
  firmware_updates = 0;
  mirror = dark;
}

abbrev amber : List PixelColor
amber = record { r = 200; g = 100; b = 50 } ∷ []

lit_applies : apply strip amber dark ≡ some lit
unfolding apply write
lit_applies = refl

device_takes :
    AllConnected simulator (pixel_at ∷ []) strip strip_compiles ((1, table) ∷ []) lit (device ∷ [])
unfolding device_range lut_of send_physical copy_all copy_universe apply_in_place
device_takes = ((record { start = 0; end = 1 }, refl, refl), tt)

send_frame-delivered_example :
    (cal : List UniverseData) × (send_all simulator
        (hal simulator
          (pixel_at ∷ [])
          strip
          strip_compiles
          ((1, table) ∷ [])
          (device ∷ [])
          dark
          dark)
        amber
      ≡ (
        hal simulator
            (pixel_at ∷ [])
            strip
            strip_compiles
            ((1, table) ∷ [])
            (delivered simulator (pixel_at ∷ []) strip strip_compiles ((1, table) ∷ []) lit device
              ∷ [])
            lit
            cal,
        sent,
      ))
    × Twin cal lit
send_frame-delivered_example =
    send_frame-delivered simulator (pixel_at ∷ []) strip strip_compiles ((1, table) ∷ [])
      (device ∷ []) amber dark lit dark device_takes lit_applies (refl, refl, tt) refl
