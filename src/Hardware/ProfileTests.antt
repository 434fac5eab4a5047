-- ===== src/Hardware/ProfileTests.antt =====
-- The profile of a node with three ports, and the layout that is compiled for it.
use led_platform.Prelude.{[], false, leb, ltb, refl, some, true, ◌∷◌, Bool, ok, ℕ, arith, ◌≡◌}
use led_platform.Color.{ColorFormat, RgbOrder}
use led_platform.Layout.Compile.{CompiledLayout}
use led_platform.Hardware.Profile.{HardwareProfile, art_net, ethernet}
use led_platform.Hardware.Validate.{Available, has_errors, validate, is_universe_based}
use led_platform.Hardware.Compile.{compile_layout}
use led_platform.Hardware.Validated.{validated-compile_layout}

-- Tenths stand for the floating-point numbers.
abbrev positive : ℕ → Bool
positive x = ltb 0 x

abbrev unit : ℕ → Bool
unit x = leb x 10

abbrev node : HardwareProfile ℕ
node = record {
  schema_version = 1;
  capabilities = record {
    protocol = art_net;
    output_interface = ethernet;
    color = ColorFormat.rgb RgbOrder.grb;
    supports_discovery = true;
    supports_metrics = false;
    ports = 3;
  };
  limits = record { pixels_per_universe = 170; max_pixels = 1530; refresh_hz = 40 };
  transport = record { mtu_bytes = 1500; heartbeat_ms = 800 };
  power = record { voltage_v = 50; max_current_a = 100 };
  calibration = record { gamma = 22; brightness = 10 };
}

abbrev here_available : Available
here_available = record { interfaces = ethernet ∷ []; protocols = art_net ∷ [] }

clean : has_errors (validate positive unit node here_available) ≡ false
unfolding validate has_errors
clean = refl

validated-compile_layout_example :
    (l : CompiledLayout) × (compile_layout node 1200 9 7 ≡ ok (some l))
validated-compile_layout_example =
    validated-compile_layout positive unit node here_available 1200 7 9 clean
      (unfold is_universe_based in refl) (omega arith) (omega arith) (omega arith) (omega arith)
