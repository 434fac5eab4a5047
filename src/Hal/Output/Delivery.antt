-- ===== src/Hal/Output/Delivery.antt =====
-- `Hal::send_frame`: each device is handed its own universes, corrected from this frame alone.
use led_platform.Prelude.{
  sym, ◌∙◌, [], ap, drop, length, length-map, map, none, refl, some, suc, take, true, zero, ◌+◌,
  ◌-◌, ◌<◌, ◌==◌, ◌∷◌, ◌≤◌, Option, List, ℕ, arith, ◌≡◌,
}
use led_platform.Color.{PixelColor}
use led_platform.Layout.Compile.{Range, CompiledLayout, PixelPhysical, compile, device_range}
use led_platform.Layout.Ranges.{device_range-inside}
use led_platform.Layout.Apply.{UniverseData, apply}
use led_platform.Hal.Calibration.{Calibration, CalibrationLut, lut_of, apply_in_place}
use led_platform.Hal.Output.{
  DeviceDriver, Hal, sent, slice, correct_range, outgoing, with_cal, FanOut, fan_out, answered,
  push_device, send_frame, Answer, took, refused, panics,
}

-- The calibration buffer has the universes of the scratch, as long; their bytes may be any.
abbrev pub Twin : List UniverseData → List UniverseData → Type 0
Twin [] [] = Unit {0}
Twin (c ∷ cal) (s ∷ scratch) =
    (c.universe ≡ s.universe) × (length c.data_bytes ≡ length s.data_bytes) × Twin cal scratch
Twin _ _ = ⊥

abbrev pub calibrate : CalibrationLut → UniverseData → UniverseData
calibrate lut u = record u { data_bytes = apply_in_place lut u.data_bytes }

Twin-length : (cal scratch : List UniverseData) → Twin cal scratch → length cal ≡ length scratch
Twin-length [] [] t = refl
Twin-length [] (s ∷ scratch) t = absurd t
Twin-length (c ∷ cal) [] t = absurd t
Twin-length (c ∷ cal) (s ∷ scratch) t = ap suc (Twin-length cal scratch t.2)

-- The loop over a range inside the buffers: it does not panic, and the range is what the table makes
-- of the scratch, whatever the buffer held.
abbrev Corrected : CalibrationLut → ℕ → ℕ → List UniverseData → List UniverseData → Type 0
Corrected lut start count cal scratch =
    (cal' : List UniverseData) × (correct_range lut start count cal scratch ≡ some cal')
    × Twin cal' scratch
    × (take count (drop start cal') ≡ map (calibrate lut) (take count (drop start scratch)))

correct_range-Corrected :
    (lut : CalibrationLut) (start count : ℕ) (cal scratch : List UniverseData)
    → Twin cal scratch
    → start + count ≤ length scratch
    → Corrected lut start count cal scratch
unfolding correct_range
correct_range-Corrected lut zero zero cal scratch t le = (cal, refl, t, refl)
correct_range-Corrected lut zero (suc n) [] [] t le = absurd (omega (arith, le))
correct_range-Corrected lut (suc k) n [] [] t le = absurd (omega (arith, le))
correct_range-Corrected lut zero (suc n) [] (s ∷ scratch) t le = absurd t
correct_range-Corrected lut (suc k) n [] (s ∷ scratch) t le = absurd t
correct_range-Corrected lut zero (suc n) (c ∷ cal) [] t le = absurd t
correct_range-Corrected lut (suc k) n (c ∷ cal) [] t le = absurd t
correct_range-Corrected lut zero (suc n) (c ∷ cal) (s ∷ scratch) (u, w, t) le =
    let (cal', e, t', q) = correct_range-Corrected lut zero n cal scratch t (omega (arith, le)) in
    let same : (length c.data_bytes == length s.data_bytes) ≡ true = ground arith in
    let new : UniverseData = record c { data_bytes = apply_in_place lut s.data_bytes } in
    (
      new ∷ cal',
      rw (e, same),
      (u, unfold apply_in_place in length-map s.data_bytes _, t'),
      ground (arith, u, q),
    )
correct_range-Corrected lut (suc k) n (c ∷ cal) (s ∷ scratch) (u, w, t) le =
    let (cal', e, t', q) = correct_range-Corrected lut k n cal scratch t (omega (arith, le)) in
    (c ∷ cal', rw e, (u, w, t'), q)

slice-inside :
    (xs : List UniverseData) (r : Range)
    → r.start ≤ r.end
    → r.end ≤ length xs
    → slice xs r ≡ some (take (r.end - r.start) (drop r.start xs))
unfolding slice
slice-inside xs r a b = ground arith

-- A device's universes, corrected where it has a table.
abbrev pub calibrated : Option CalibrationLut → List UniverseData → List UniverseData
calibrated none us = us
calibrated (some lut) us = map (calibrate lut) us

abbrev pub cut : Option Range → List UniverseData → List UniverseData
cut none xs = []
cut (some r) xs = take (r.end - r.start) (drop r.start xs)

with_cal-slice :
    (r : Range) (cal us : List UniverseData)
    → slice cal r ≡ some us
    → with_cal r (some cal) ≡ some (us, cal)
with_cal-slice r cal us e = rw (e, with_cal)

outgoing-calibrated :
    (lut : Option CalibrationLut) (r : Range) (scratch cal : List UniverseData)
    → Twin cal scratch
    → r.start < r.end
    → r.end ≤ length scratch
    → (cal' : List UniverseData) × (outgoing lut r scratch cal
        ≡ some (calibrated lut (cut (some r) scratch), cal'))
      × Twin cal' scratch
unfolding outgoing
outgoing-calibrated none r scratch cal t a b =
    (cal, rw (slice-inside scratch r (omega arith) b, outgoing), t)
outgoing-calibrated (some lut) r scratch cal t a b =
    let (cal', e, t', q) =
      correct_range-Corrected lut r.start (r.end - r.start) cal scratch t (omega arith) in
    let s = slice-inside cal' r (omega arith) (omega (arith, Twin-length cal' scratch t')) in
    (cal', rw e (with_cal-slice r cal' _ (s ∙ ap (λ (us : List UniverseData). some us) q)), t')

module _ {D : Type 0} (driver : DeviceDriver D) (xs : List PixelPhysical) (layout : CompiledLayout)
    (compiled : compile xs ≡ some layout) (calibration : Calibration) where
  -- Every device is one of the layout's, and takes what it is handed of the scratch.
  abbrev pub AllConnected : List UniverseData → List D → Type 0
  AllConnected scratch [] = Unit {0}
  AllConnected scratch (d ∷ ds) =
      ((r : Range) × (device_range layout (driver.id d) ≡ some r)
        × ((driver.send_physical d
              (calibrated (lut_of calibration (driver.id d)) (cut (some r) scratch))).1
            ≡ took))
      × AllConnected scratch ds

  -- A device after it was handed its own part of the scratch.
  abbrev pub delivered : List UniverseData → D → D
  delivered scratch d =
      (driver.send_physical d (
        calibrated (lut_of calibration (driver.id d))
          (cut (device_range layout (driver.id d)) scratch))).0

  answered-took :
      (p : D × Answer) (ds : List D) (cal : List UniverseData) (rest : FanOut D)
      → p.1 ≡ took
      → answered driver p ds cal rest ≡ push_device driver p.0 rest
  answered-took (d, took) ds cal rest e = refl
  answered-took (d, refused x) ds cal rest e = absurd (ground arith)
  answered-took (d, panics) ds cal rest e = absurd (ground arith)

  fan_out_step :
      (d : D) (ds : List D) (scratch cal us cal' : List UniverseData) (r : Range) (rest : FanOut D)
      → device_range layout (driver.id d) ≡ some r
      → outgoing (lut_of calibration (driver.id d)) r scratch cal ≡ some (us, cal')
      → (driver.send_physical d us).1 ≡ took
      → fan_out driver layout calibration scratch ds cal' ≡ rest
      → fan_out driver layout calibration scratch (d ∷ ds) cal
        ≡ push_device driver (driver.send_physical d us).0 rest
  unfolding fan_out
  fan_out_step d ds scratch cal us cal' r rest owned e accepts f =
      rw (owned, fan_out)
        (rw (e, f) (answered-took (driver.send_physical d us) ds cal' rest accepts))

  fan_out-delivered :
      (ds : List D) (scratch cal : List UniverseData)
      → AllConnected scratch ds
      → Twin cal scratch
      → length scratch ≡ length layout.universes
      → (cal' : List UniverseData) × (fan_out driver layout calibration scratch ds cal
          ≡ record { devices = map (delivered scratch) ds; cal_scratch = cal'; outcome = sent })
        × Twin cal' scratch
  unfolding fan_out
  fan_out-delivered [] scratch cal c t n = (cal, refl, t)
  fan_out-delivered (d ∷ ds) scratch cal ((r, owned, accepts), c) t n =
      let (a, b) = device_range-inside xs layout (driver.id d) r compiled owned in
      let lut = lut_of calibration (driver.id d) in
      let (cal₁, e, t₁) = outgoing-calibrated lut r scratch cal t a (omega (arith, n)) in
      let (cal', f, t') = fan_out-delivered ds scratch cal₁ c t₁ n in
      (
        cal',
        fan_out_step d ds scratch cal _ cal₁ r _ owned e accepts f
            ∙ ap
                (λ (o : Option Range). record {
                  devices =
                      (driver.send_physical d (calibrated lut (cut o scratch))).0
                      ∷ map (delivered scratch) ds;
                  cal_scratch = cal';
                  outcome = sent;
                })
                (sym owned),
        t',
      )

  -- A frame's state before, and after with the devices and the calibration buffer that it leaves.
  abbrev pub hal : List D → List UniverseData → List UniverseData → Hal D
  hal ds scratch cal = record {
    layout = layout;
    devices = ds;
    scratch = scratch;
    calibration = calibration;
    cal_scratch = cal;
  }

  -- For a compiled layout whose frame applies to the scratch, devices that the layout knows and
  -- that take what they are handed, and a calibration buffer of the same shape with any bytes in
  -- it, `send_frame` succeeds, and every device is left as its driver leaves it on being handed
  -- its own range of the scratch, corrected by its table where it has one; the buffer keeps its
  -- shape.
  pub send_frame-delivered :
      (ds : List D) (pixels : List PixelColor) (before scratch cal : List UniverseData)
      → AllConnected scratch ds
      → apply layout pixels before ≡ some scratch
      → Twin cal scratch
      → length scratch ≡ length layout.universes
      → (cal' : List UniverseData) × (send_frame driver (hal ds before cal) pixels
          ≡ (hal (map (delivered scratch) ds) scratch cal', sent))
        × Twin cal' scratch
  unfolding send_frame
  send_frame-delivered ds pixels before scratch cal c a t n =
      let (cal', f, t') = fan_out-delivered ds scratch cal c t n in
      (cal', rw (a, send_frame) (rw f), t')
