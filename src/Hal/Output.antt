-- ===== src/Hal/Output.antt =====
-- crates/led-hal/src/hal.rs: `Hal::send_frame`, over any driver. Metrics and spans only record times
-- and are left out; the locks hold for a whole frame.
pub mod Delivery
use led_platform.Prelude.{
  [], drop, if◌then◌else◌, leb, length, none, some, suc, take, zero, ◌&&◌, ◌-◌, ◌==◌, ◌∷◌, Bool,
  Option, List, ℕ, arith, ◌≡◌,
}
use led_platform.Color.{PixelColor}
use led_platform.Layout.Compile.{DeviceId, Range, CompiledLayout, device_range}
use led_platform.Layout.Apply.{UniverseData, make_scratch, apply}
use led_platform.Hal.Calibration.{Calibration, CalibrationLut, lut_of, apply_in_place, is_empty}

pub data OutputError : Type 0 where
  device_not_connected : DeviceId → OutputError
  transport : OutputError

-- What `send_physical` comes to.
pub data Answer : Type 0 where
  took panics : Answer
  refused : OutputError → Answer

-- The trait `DeviceDriver` for a type of devices.
pub record DeviceDriver (D : Type 0) : Type 0 where
  pub id : D → DeviceId
  pub send_physical : D → List UniverseData → D × Answer

pub record Hal (D : Type 0) : Type 0 where
  pub layout : CompiledLayout
  pub devices : List D
  pub scratch : List UniverseData
  pub calibration : Calibration
  pub cal_scratch : List UniverseData

pub data Outcome : Type 0 where
  sent panicked : Outcome
  failed : OutputError → Outcome

-- `&xs[range]`; `none` out of range.
unfoldable pub slice : List UniverseData → Range → Option (List UniverseData)
slice xs r =
    if leb r.start r.end && leb r.end (length xs)
    then some (take (r.end - r.start) (drop r.start xs))
    else none

-- `copy_from_slice` and the table, for one universe; lengths that differ are a panic.
abbrev pub corrected :
    CalibrationLut
    → UniverseData
    → UniverseData
    → Option (List UniverseData)
    → Option (List UniverseData)
corrected lut c s none = none
corrected lut c s (some rest) =
    if length c.data_bytes == length s.data_bytes
    then some (record c { data_bytes = apply_in_place lut s.data_bytes } ∷ rest)
    else none

abbrev pub kept : UniverseData → Option (List UniverseData) → Option (List UniverseData)
kept c none = none
kept c (some rest) = some (c ∷ rest)

-- The loop over `start..start + count`, on both buffers at once.
unfoldable pub correct_range :
    CalibrationLut → ℕ → ℕ → List UniverseData → List UniverseData → Option (List UniverseData)
correct_range lut zero zero cal scratch = some cal
correct_range lut zero (suc n) (c ∷ cal) (s ∷ scratch) =
    corrected lut c s (correct_range lut zero n cal scratch)
correct_range lut (suc k) n (c ∷ cal) (s ∷ scratch) = kept c (correct_range lut k n cal scratch)
correct_range lut _ _ _ _ = none

abbrev pub with_cal :
    Range → Option (List UniverseData) → Option (List UniverseData × List UniverseData)
with_cal r none = none
with_cal r (some cal) = elim (slice cal r) [ none ↦ none | some us ↦ some (us, cal) ]

-- What the device is handed, and `cal_scratch` afterwards.
unfoldable pub outgoing :
    Option CalibrationLut
    → Range
    → List UniverseData
    → List UniverseData
    → Option (List UniverseData × List UniverseData)
unfolding slice correct_range
outgoing none r scratch cal = elim (slice scratch r) [ none ↦ none | some us ↦ some (us, cal) ]
outgoing (some lut) r scratch cal =
    with_cal r (correct_range lut r.start (r.end - r.start) cal scratch)

pub record FanOut (D : Type 0) : Type 0 where
  pub devices : List D
  pub cal_scratch : List UniverseData
  pub outcome : Outcome

module _ {D : Type 0} (driver : DeviceDriver D) where
  abbrev pub halt : List D → List UniverseData → Outcome → FanOut D
  halt ds cal o = record { devices = ds; cal_scratch = cal; outcome = o }

  abbrev pub push_device : D → FanOut D → FanOut D
  push_device d f = record f { devices = d ∷ f.devices }

  -- The answer of the driver, `?`, and the rest of the loop.
  abbrev pub answered : D × Answer → List D → List UniverseData → FanOut D → FanOut D
  answered (d, took) ds cal rest = push_device d rest
  answered (d, refused e) ds cal rest = halt (d ∷ ds) cal (failed e)
  answered (d, panics) ds cal rest = halt (d ∷ ds) cal panicked

  -- The loop over the devices.
  unfoldable pub fan_out :
      CompiledLayout → Calibration → List UniverseData → List D → List UniverseData → FanOut D
  unfolding outgoing device_range lut_of
  fan_out layout calibration scratch [] cal = halt [] cal sent
  fan_out layout calibration scratch (d ∷ ds) cal = elim (device_range layout (driver.id d)) [
    | none ↦ halt (d ∷ ds) cal (failed (device_not_connected (driver.id d)))
    | some r ↦ elim (outgoing (lut_of calibration (driver.id d)) r scratch cal) [
      | none ↦ halt (d ∷ ds) cal panicked
      | some (us, cal') ↦
          answered (driver.send_physical d us) ds cal' (fan_out layout calibration scratch ds cal')
    ]
  ]

  unfoldable pub send_frame : Hal D → List PixelColor → Hal D × Outcome
  unfolding fan_out
  send_frame h pixels = elim (apply h.layout pixels h.scratch) [
    | none ↦ (h, panicked)
    | some scratch ↦
        let f = fan_out h.layout h.calibration scratch h.devices h.cal_scratch in
        (
          record h { scratch = scratch; devices = f.devices; cal_scratch = f.cal_scratch },
          f.outcome,
        )
  ]

  -- `Hal::new`, then `with_calibration`.
  unfoldable pub new : CompiledLayout → List D → Hal D
  new layout devices = record {
    layout = layout;
    devices = devices;
    scratch = make_scratch layout;
    calibration = [];
    cal_scratch = [];
  }

  unfoldable pub with_calibration : Hal D → Calibration → Hal D
  with_calibration h calibration = record h {
    calibration = calibration;
    cal_scratch = if is_empty calibration then h.cal_scratch else make_scratch h.layout;
  }
