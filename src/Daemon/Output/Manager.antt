-- ===== src/Daemon/Output/Manager.antt =====
-- crates/led-daemon-bin/src/output.rs: `OutputManager`. `O` stands for `Box<dyn ProtocolOutput>`, and
-- `Drivers` opens one, with the socket that it takes. A `fatia` has `pixel_count` places and is
-- never resized, and the code copies no more than that into it; the locks hold for a whole copy. A frame's
-- provenance, which no output reads, is left out.
pub mod Send
pub mod Delivery
pub mod Joined
pub mod Opened
pub mod Calls
pub mod Dark
pub mod Counted
use led_platform.Prelude.{
  Bool, List, Option, Result, [], drop, err, false, if◌then◌else◌, length, ltb, max, min, none, not,
  ok, replicate, some, suc, take, true, u64, zero, ℕ, ◌&&◌, ◌+◌, ◌-◌, ◌∷◌,
}
use led_platform.Prelude.{◌>>=◌}
use led_platform.Color.{PixelColor, ColorFormat}
use led_platform.Layout.Compile.{CompiledLayout}
use led_platform.Hardware.Compile.{CompileError}
use led_platform.Hal.Calibration.{CalibrationLut, lut_at}
use led_platform.Hal.Output.{OutputError}
use led_platform.Daemon.Output.Protocol.{OutputProtocol}
use led_platform.Daemon.Output.Config.{Alvo, OutputConfig, compilar_layout, datagram_pixels}

pub record LogicalFrame : Type 0 where
  pub pixels : List PixelColor
  pub timestamp_ms : ℕ

-- The trait `ProtocolOutput`; `none` is success.
pub record ProtocolOutput (O : Type 0) : Type 0 where
  pub send_frame : O → LogicalFrame → O × Option OutputError
  pub universe_count : O → ℕ

pub record Drivers (A O : Type 0) : Type 0 where
  pub open_ddp : A → ℕ → ColorFormat → ℕ → ℕ → ℕ → Option O
  pub open_art_net : CompiledLayout → A → Option O
  pub open_sacn : CompiledLayout → A → Option O

pub record OutputStats : Type 0 where
  pub frames_sent : ℕ
  pub errors : ℕ

pub record Saida (A O : Type 0) : Type 0 where
  pub out : O
  pub alvo : Alvo A
  pub fatia : List PixelColor
  pub stats : OutputStats

pub record OutputManager (A F O : Type 0) : Type 0 where
  pub saidas : List (Saida A O)
  pub cfg : OutputConfig A F
  pub stats : OutputStats
  pub lut : Option CalibrationLut
  pub corrigidos : List PixelColor
  pub blackout : Bool
  pub preto : List PixelColor

pub data OpenError : Type 0 where
  no_layout : CompileError → OpenError
  no_socket panics : OpenError

abbrev pub black : PixelColor
black = record { r = 0; g = 0; b = 0 }

abbrev pub no_stats : OutputStats
no_stats = record { frames_sent = 0; errors = 0 }

abbrev pub bound : {O : Type 0} → Option O → Result OpenError O
bound none = err no_socket
bound (some out) = ok out

abbrev pub over_layout :
    {O : Type 0}
    → (CompiledLayout → Option O)
    → Result CompileError (Option CompiledLayout)
    → Result OpenError O
over_layout f (err e) = err (no_layout e)
over_layout f (ok none) = err panics
over_layout f (ok (some l)) = bound (f l)

-- `map`, `max` and `unwrap_or(0)`.
abbrev pub maior_fatia : {A O : Type 0} → List (Saida A O) → ℕ
maior_fatia [] = 0
maior_fatia (s ∷ ss) = max s.alvo.pixel_count (maior_fatia ss)

module _ {A F O : Type 0} (drivers : Drivers A O) where
  unfoldable pub open_alvo : OutputConfig A F → OutputProtocol → Alvo A → Result OpenError O
  unfolding compilar_layout datagram_pixels
  open_alvo cfg OutputProtocol.ddp alvo = bound (
      drivers.open_ddp alvo.addr alvo.pixel_count cfg.color (datagram_pixels cfg)
        cfg.pixels_per_universe alvo.pixel_offset)
  open_alvo cfg OutputProtocol.art_net alvo =
      over_layout (λ l. drivers.open_art_net l alvo.addr) (compilar_layout cfg alvo)
  open_alvo cfg OutputProtocol.sacn alvo =
      over_layout (λ l. drivers.open_sacn l alvo.addr) (compilar_layout cfg alvo)

  -- The loop over the targets; the first error ends it.
  unfoldable pub open_alvos : OutputConfig A F → List (Alvo A) → Result OpenError (List (Saida A O))
  unfolding open_alvo
  open_alvos cfg [] = ok []
  open_alvos cfg (alvo ∷ alvos) = do
    out ← open_alvo cfg cfg.protocol alvo
    saidas ← open_alvos cfg alvos
    ok (
        record {
          out = out;
          alvo = alvo;
          fatia = replicate alvo.pixel_count black;
          stats = no_stats;
        }
        ∷ saidas)

  module _ (is_one : F → Bool) (make_lut : F → F → CalibrationLut) where
    unfoldable pub open_manager : OutputConfig A F → Result OpenError (OutputManager A F O)
    unfolding open_alvos
    open_manager cfg = do
      saidas ← open_alvos cfg cfg.alvos
      ok (record {
        saidas = saidas;
        cfg = cfg;
        stats = no_stats;
        lut =
            if is_one cfg.calibration.gamma && is_one cfg.calibration.brightness
            then none
            else some (make_lut cfg.calibration.gamma cfg.calibration.brightness);
        corrigidos = replicate cfg.pixel_count black;
        blackout = false;
        preto = replicate (max (maior_fatia saidas) cfg.pixel_count) black;
      })

module _ {A F O : Type 0} where
  -- `swap`, and whether the flag changed.
  unfoldable pub blackout_accionar : OutputManager A F O → OutputManager A F O × Bool
  blackout_accionar m = (record m { blackout = true }, not m.blackout)

  unfoldable pub blackout_levantar : OutputManager A F O → OutputManager A F O × Bool
  blackout_levantar m = (record m { blackout = false }, m.blackout)

unfoldable pub por_alvo : {A O : Type 0} → List (Saida A O) → List (A × ℕ × ℕ)
por_alvo [] = []
por_alvo (s ∷ ss) = (s.alvo.addr, s.stats.frames_sent, s.stats.errors) ∷ por_alvo ss
