-- ===== src/Daemon/Output/Tests.antt =====
-- Two DDP nodes of two pixels each for a show of three: an address is the first byte of its text.
use led_platform.Prelude.{
  Bool, List, Option, [], arith, false, ltb, map, none, ok, refl, replicate, some, suc, true, zero,
  ℕ, ◌&&◌, ◌==◌, ◌∷◌, ◌≡◌,
}
use led_platform.Color.{PixelColor, ColorFormat, grb}
use led_platform.Hal.Calibration.{CalibrationLut, identity}
use led_platform.Hardware.Profile.{HardwareProfile, ddp, ethernet}
use led_platform.Daemon.Output.Protocol.{OutputProtocol, from_protocol}
use led_platform.Daemon.Output.Config.{SocketAddr, Alvo, OutputConfig, resolve_muitos}
use led_platform.Daemon.Output.Wired.{AllRead, AreApart, Chains, resolve_muitos-Chains}
use led_platform.Daemon.Output.Manager.{
  LogicalFrame, ProtocolOutput, Drivers, OutputManager, black, open_manager, no_stats,
}
use led_platform.Daemon.Output.Manager.Send.{send}
use led_platform.Daemon.Output.Manager.Delivery.{slice_of, concat, framed}
use led_platform.Daemon.Output.Manager.Joined.{IsOpen, Sends, send-Sends}
use led_platform.Daemon.Output.Manager.Opened.{resolve_muitos-open_manager}
use led_platform.Daemon.Output.Manager.Calls.{frames, acciona, levanta, after_calls}
use led_platform.Daemon.Output.Manager.Dark.{IsDark, KeptByBlack, after_calls-IsDark}
use led_platform.Daemon.Output.Manager.Counted.{AreCounted, open_manager-AreCounted}

abbrev first_byte : List ℕ → Option ℕ
first_byte [] = none
first_byte (b ∷ bs) = some b

abbrev net : SocketAddr ℕ
net = record { same_addr = λ a b. a == b; is_loopback = λ a. a == 127; parse_addr = first_byte }

abbrev positive : ℕ → Bool
positive x = ltb 0 x

abbrev profile : HardwareProfile ℕ
profile = record {
  schema_version = 1;
  capabilities = record {
    protocol = ddp;
    output_interface = ethernet;
    color = ColorFormat.rgb grb;
    supports_discovery = true;
    supports_metrics = false;
    ports = 1;
  };
  limits = record { pixels_per_universe = 170; max_pixels = 2; refresh_hz = 40 };
  transport = record { mtu_bytes = 1500; heartbeat_ms = 800 };
  power = record { voltage_v = 50; max_current_a = 100 };
  calibration = record { gamma = 1; brightness = 1 };
}

-- `7` and `ddp://8:4048`.
abbrev specs : List (List ℕ)
specs =
    (b'7' ∷ [])
    ∷ (b'd' ∷ b'd' ∷ b'p' ∷ b':' ∷ b'/' ∷ b'/' ∷ b'8' ∷ b':' ∷ b'4' ∷ b'0' ∷ b'4' ∷ b'8' ∷ [])
    ∷ []

abbrev first_alvo : Alvo ℕ
first_alvo = record {
  addr = 55;
  first_universe = 0;
  pixel_offset = 0;
  pixel_count = 2;
  escapa_blackout = false;
}

abbrev last_alvo : Alvo ℕ
last_alvo = record {
  addr = 56;
  first_universe = 0;
  pixel_offset = 2;
  pixel_count = 1;
  escapa_blackout = false;
}

abbrev config : OutputConfig ℕ ℕ
config = record {
  protocol = OutputProtocol.ddp;
  alvos = first_alvo ∷ last_alvo ∷ [];
  pixel_count = 3;
  color = ColorFormat.rgb grb;
  pixels_per_universe = 170;
  ports = 1;
  max_pixels = 2;
  transport = record { mtu_bytes = 1500; heartbeat_ms = 800 };
  calibration = record { gamma = 1; brightness = 1 };
  supports_discovery = true;
}

resolved : resolve_muitos net positive positive profile specs 3 ≡ ok config
unfolding resolve_muitos
resolved = refl

resolve_muitos-Chains_example :
    AllRead net (from_protocol ddp) specs (first_alvo ∷ last_alvo ∷ [])
    × AreApart net (55 ∷ 56 ∷ [])
    × Chains 0 2 3 (first_alvo ∷ last_alvo ∷ [])
    × ◌≡◌ {A = ℕ} 3 3
resolve_muitos-Chains_example =
    resolve_muitos-Chains net positive positive profile specs 3 config (omega arith) resolved

-- A node that keeps whether all that it was handed last was black.
abbrev is_black : PixelColor → Bool
is_black c = c.r == 0 && (c.g == 0 && c.b == 0)

abbrev all_black : List PixelColor → Bool
all_black [] = true
all_black (c ∷ cs) = is_black c && all_black cs

abbrev lamp : ProtocolOutput Bool
lamp = record { send_frame = λ o f. (all_black f.pixels, none); universe_count = λ o. 1 }

abbrev lamps : Drivers ℕ Bool
lamps = record {
  open_ddp = λ addr count color max_pixels ppu offset. some true;
  open_art_net = λ l addr. none;
  open_sacn = λ l addr. none;
}

abbrev manager : OutputManager ℕ ℕ Bool
manager = record {
  saidas =
      record { out = true; alvo = first_alvo; fatia = black ∷ black ∷ []; stats = no_stats }
      ∷ record { out = true; alvo = last_alvo; fatia = black ∷ []; stats = no_stats }
      ∷ [];
  cfg = config;
  stats = no_stats;
  lut = none;
  corrigidos = black ∷ black ∷ black ∷ [];
  blackout = false;
  preto = black ∷ black ∷ black ∷ [];
}

abbrev is_one : ℕ → Bool
is_one x = x == 1

abbrev make_lut : ℕ → ℕ → CalibrationLut
make_lut gamma brightness = identity

opened : open_manager lamps is_one make_lut config ≡ ok manager
unfolding open_manager
opened = refl

abbrev lit_frame : LogicalFrame
lit_frame = record {
  pixels = record { r = 9; g = 0; b = 0 } ∷ black ∷ record { r = 0; g = 0; b = 7 } ∷ [];
  timestamp_ms = 25;
}

manager-IsOpen : IsOpen 2 3 manager
manager-IsOpen =
    (resolve_muitos-open_manager lamps is_one make_lut net positive positive profile specs 3 config
      manager (omega arith) resolved opened).0

send-Sends_example :
    Sends lamp 2 manager (framed lit_frame lit_frame.pixels) (send lamp manager lit_frame)
    × (concat (map (slice_of lit_frame.pixels) (first_alvo ∷ last_alvo ∷ [])) ≡ lit_frame.pixels)
send-Sends_example = send-Sends lamp 2 manager lit_frame manager-IsOpen

all_black-replicate : (n : ℕ) → all_black (replicate n black) ≡ true
all_black-replicate zero = refl
all_black-replicate (suc n) = all_black-replicate n

lamp-KeptByBlack : KeptByBlack lamp (λ o. o ≡ true)
lamp-KeptByBlack o n t h = all_black-replicate n

abbrev darkened : OutputManager ℕ ℕ Bool
darkened = record manager { blackout = true }

after_calls-IsDark_example :
    IsDark
      (λ o. o ≡ true)
      (after_calls lamp darkened (frames lit_frame ∷ acciona ∷ frames lit_frame ∷ []))
after_calls-IsDark_example =
    after_calls-IsDark lamp (λ o. o ≡ true) lamp-KeptByBlack darkened
      (frames lit_frame ∷ acciona ∷ frames lit_frame ∷ []) tt
      (refl, (3, refl), (refl, refl, (refl, refl, tt)))

open_manager-AreCounted_example :
    AreCounted 2
      (after_calls lamp manager (frames lit_frame ∷ acciona ∷ frames lit_frame ∷ levanta ∷ []))
open_manager-AreCounted_example =
    open_manager-AreCounted lamps is_one make_lut config manager lamp
      (frames lit_frame ∷ acciona ∷ frames lit_frame ∷ levanta ∷ []) opened
