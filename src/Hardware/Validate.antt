-- ===== src/Hardware/Validate.antt =====
-- crates/led-hardware-profile/src/validate.rs: `validate`. `is_positive` and `in_unit` stand for the
-- tests `x > 0.0` and `(0.0..=1.0).contains(&x)` of the language on `f32`.
use led_platform.Prelude.{
  [], false, if◌then◌else◌, ltb, not, true, ◌&&◌, ◌*◌, ◌++◌, ◌==◌, ◌||◌, ◌∷◌, Bool, List, ℕ, arith,
  ◌≡◌,
}
use led_platform.Color.{ColorFormat, rgbw, channels}
use led_platform.Layout.Linear.{universe_size}
use led_platform.Hardware.Profile.{
  schema_version_known, Protocol, OutputInterface, HardwareProfile, same_protocol, same_interface,
  sacn, art_net, ddp, wi_fi,
}

pub record Available : Type 0 where
  pub interfaces : List OutputInterface
  pub protocols : List Protocol

pub data Severity : Type 0 where
  error warning : Severity

pub data LimitField : Type 0 where
  pixels_per_universe max_pixels refresh_hz : LimitField

pub data PowerField : Type 0 where
  voltage_v max_current_a : PowerField

pub data CalibrationField : Type 0 where
  gamma brightness : CalibrationField

pub data Finding : Type 0 where
  unknown_schema_version : ℕ → ℕ → Finding
  interface_has_no_driver : OutputInterface → Finding
  protocol_has_no_driver : Protocol → Finding
  pixels_exceed_universe : ℕ → ℕ → ℕ → Finding
  no_physical_ports : Finding
  zero_limit : LimitField → Finding
  invalid_power : PowerField → Finding
  invalid_calibration : CalibrationField → Finding
  rgbw_over_ddp_data_type wifi_not_permitted_live : Finding

unfoldable pub severity : Finding → Severity
severity rgbw_over_ddp_data_type = warning
severity wifi_not_permitted_live = warning
severity _ = error

abbrev pub is_error : Severity → Bool
is_error error = true
is_error warning = false

unfoldable pub has_errors : List Finding → Bool
unfolding severity
has_errors [] = false
has_errors (f ∷ fs) = is_error (severity f) || has_errors fs

unfoldable pub is_universe_based : Protocol → Bool
is_universe_based sacn = true
is_universe_based art_net = true
is_universe_based ddp = false

unfoldable pub contains_interface : OutputInterface → List OutputInterface → Bool
unfolding same_interface
contains_interface i [] = false
contains_interface i (x ∷ xs) = same_interface x i || contains_interface i xs

unfoldable pub contains_protocol : Protocol → List Protocol → Bool
unfolding same_protocol
contains_protocol p [] = false
contains_protocol p (x ∷ xs) = same_protocol x p || contains_protocol p xs

abbrev pub is_rgbw : ColorFormat → Bool
is_rgbw (ColorFormat.rgb order) = false
is_rgbw (rgbw order wm) = true

-- `if c { findings.push(f) }`.
unfoldable pub push_if : Bool → Finding → List Finding → List Finding
push_if c f findings = if c then findings ++ f ∷ [] else findings

module _ {F : Type 0} (is_positive in_unit : F → Bool) where
  unfoldable pub validate : HardwareProfile F → Available → List Finding
  unfolding push_if is_universe_based contains_interface contains_protocol same_protocol
      same_interface
  validate p available =
      let caps = p.capabilities in
      let per = p.limits.pixels_per_universe in
      let c = channels (caps.color) in
      let f₁ =
        push_if (not (p.schema_version == schema_version_known))
          (unknown_schema_version (p.schema_version) schema_version_known) [] in
      let f₂ =
        push_if (not (contains_interface (caps.output_interface) (available.interfaces)))
          (interface_has_no_driver (caps.output_interface)) f₁ in
      let f₃ =
        push_if (not (contains_protocol (caps.protocol) (available.protocols)))
          (protocol_has_no_driver (caps.protocol)) f₂ in
      let f₄ = push_if (caps.ports == 0) no_physical_ports f₃ in
      let f₅ =
        push_if (is_universe_based (caps.protocol) && ltb universe_size (per * c))
          (pixels_exceed_universe per c universe_size) f₄ in
      let f₆ = push_if (per == 0) (zero_limit pixels_per_universe) f₅ in
      let f₇ = push_if (p.limits.max_pixels == 0) (zero_limit max_pixels) f₆ in
      let f₈ = push_if (p.limits.refresh_hz == 0) (zero_limit refresh_hz) f₇ in
      let f₉ = push_if (not (is_positive (p.power.voltage_v))) (invalid_power voltage_v) f₈ in
      let f₁₀ =
        push_if (not (is_positive (p.power.max_current_a))) (invalid_power max_current_a) f₉ in
      let f₁₁ = push_if (not (is_positive (p.calibration.gamma))) (invalid_calibration gamma) f₁₀ in
      let f₁₂ =
        push_if (not (in_unit (p.calibration.brightness))) (invalid_calibration brightness) f₁₁ in
      let f₁₃ =
        push_if (is_rgbw (caps.color) && same_protocol (caps.protocol) ddp) rgbw_over_ddp_data_type
          f₁₂ in
      push_if (same_interface (caps.output_interface) wi_fi) wifi_not_permitted_live f₁₃

pub has_errors-push_if :
    (c : Bool) (f : Finding) (fs : List Finding)
    → has_errors (push_if c f fs) ≡ (has_errors fs || (c && is_error (severity f)))
unfolding push_if has_errors
has_errors-push_if false f fs = ground arith
has_errors-push_if true f [] = ground arith
has_errors-push_if true f (g ∷ fs) = ground (arith, has_errors-push_if true f fs)
