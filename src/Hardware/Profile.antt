-- ===== src/Hardware/Profile.antt =====
-- crates/led-hardware-profile/src/lib.rs: the profile of a node. `F` stands for `f32`, of which the
-- crate only makes two tests. Texts are not read by what is modelled.
use led_platform.Prelude.{false, true, Bool, ℕ}
use led_platform.Color.{ColorFormat}

abbrev pub schema_version_known : ℕ
schema_version_known = 1

pub data Protocol : Type 0 where
  sacn art_net ddp : Protocol

pub data OutputInterface : Type 0 where
  ethernet wi_fi spi pwm : OutputInterface

pub record Capabilities : Type 0 where
  pub protocol : Protocol
  pub output_interface : OutputInterface
  pub color : ColorFormat
  pub supports_discovery : Bool
  pub supports_metrics : Bool
  pub ports : ℕ

pub record Limits : Type 0 where
  pub pixels_per_universe : ℕ
  pub max_pixels : ℕ
  pub refresh_hz : ℕ

pub record Power (F : Type 0) : Type 0 where
  pub voltage_v : F
  pub max_current_a : F

pub record Calibration (F : Type 0) : Type 0 where
  pub gamma : F
  pub brightness : F

pub record Transport : Type 0 where
  pub mtu_bytes : ℕ
  pub heartbeat_ms : ℕ

pub record HardwareProfile (F : Type 0) : Type 0 where
  pub schema_version : ℕ
  pub capabilities : Capabilities
  pub limits : Limits
  pub transport : Transport
  pub power : Power F
  pub calibration : Calibration F

-- The derived equalities.
unfoldable pub same_protocol : Protocol → Protocol → Bool
same_protocol sacn sacn = true
same_protocol art_net art_net = true
same_protocol ddp ddp = true
same_protocol _ _ = false

unfoldable pub same_interface : OutputInterface → OutputInterface → Bool
same_interface ethernet ethernet = true
same_interface wi_fi wi_fi = true
same_interface spi spi = true
same_interface pwm pwm = true
same_interface _ _ = false
