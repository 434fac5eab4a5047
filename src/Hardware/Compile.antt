-- ===== src/Hardware/Compile.antt =====
-- crates/led-hardware-profile/src/compile.rs: `compile_layout_de` and `compile_layout`. A layout
-- `none` is a panic of `CompiledLayout::compile`.
use led_platform.Prelude.{
  [], if◌then◌else◌, ltb, suc, u16, zero, ◌%◌, ◌*◌, ◌++◌, ◌+◌, ◌/◌, ◌==◌, ◌∷◌, Option, List, Result,
  ok, err, ℕ,
}
use led_platform.Color.{ColorFormat, channels}
use led_platform.Layout.Compile.{DeviceId, PixelPhysical, CompiledLayout, compile}
use led_platform.Layout.Linear.{universe_size}
use led_platform.Hardware.Repartition.{RepartirError, FatiaDePorta, repartir_portas_de}
use led_platform.Hardware.Profile.{HardwareProfile}

pub data CompileError : Type 0 where
  exceeds_max_pixels : ℕ → ℕ → CompileError
  zero_pixels_per_universe : CompileError
  pixels_exceed : ℕ → ℕ → CompileError
  reparticao : RepartirError → CompileError

pub record Enderecamento : Type 0 where
  pub ports : ℕ
  pub pixels_per_universe : ℕ
  pub max_pixels : ℕ
  pub color : ColorFormat

-- The inner loop: the pixels left of the port, and `j`.
unfoldable pub pixels_of : ℕ → ℕ → ℕ → ColorFormat → DeviceId → FatiaDePorta → List PixelPhysical
pixels_of zero j ppu color device_id porta = []
pixels_of (suc n) j ppu color device_id porta =
    record {
      device = device_id;
      universe = u16 (porta.universe_start + u16 (j / ppu));
      channel = u16 (j % ppu * channels color);
      format = color;
    }
    ∷ pixels_of n (suc j) ppu color device_id porta

unfoldable pub assignments_of : ℕ → ColorFormat → DeviceId → List FatiaDePorta → List PixelPhysical
unfolding pixels_of
assignments_of ppu color device_id [] = []
assignments_of ppu color device_id (porta ∷ fatias) =
    pixels_of (porta.pixel_count) 0 ppu color device_id porta
    ++ assignments_of ppu color device_id fatias

-- `map_err(CompileError::Reparticao)?` and what follows.
abbrev pub compile_fatias :
    Enderecamento
    → DeviceId
    → Result RepartirError (List FatiaDePorta)
    → Result CompileError (Option CompiledLayout)
compile_fatias e device_id (err r) = err (reparticao r)
compile_fatias e device_id (ok fatias) =
    ok (compile (assignments_of (e.pixels_per_universe) (e.color) device_id fatias))

unfoldable pub compile_layout_de :
    Enderecamento → ℕ → DeviceId → ℕ → Result CompileError (Option CompiledLayout)
unfolding assignments_of
compile_layout_de e pixel_count device_id first_universe =
    let ppu = e.pixels_per_universe in
    if ppu == 0
    then err zero_pixels_per_universe
    else if ltb universe_size (ppu * channels (e.color))
    then err (pixels_exceed ppu (channels (e.color)))
    else if ltb (e.max_pixels) pixel_count
    then err (exceeds_max_pixels pixel_count (e.max_pixels))
    else compile_fatias e device_id
        (repartir_portas_de (e.ports) ppu (e.max_pixels) pixel_count first_universe)

unfoldable pub compile_layout :
    {F : Type 0}
    → HardwareProfile F
    → ℕ
    → DeviceId
    → ℕ
    → Result CompileError (Option CompiledLayout)
unfolding compile_layout_de
compile_layout profile pixel_count device_id first_universe =
    compile_layout_de
      (record {
        ports = profile.capabilities.ports;
        pixels_per_universe = profile.limits.pixels_per_universe;
        max_pixels = profile.limits.max_pixels;
        color = profile.capabilities.color;
      })
      pixel_count device_id first_universe
