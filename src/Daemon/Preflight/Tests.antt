-- ===== src/Daemon/Preflight/Tests.antt =====
-- A show for one node on a network, prepared while WiFi is up.
use led_platform.Prelude.{
  List, Option, [], false, none, not, refl, some, true, ℕ, ◌&&◌, ◌==◌, ◌∷◌, ◌≡◌, ◌≢◌,
}
use led_platform.Color.{ColorFormat, grb}
use led_platform.Runtime.Types.{ShowDescriptor, load, PreflightReport, Command, arm, play}
use led_platform.Runtime.Machine.{new}
use led_platform.Runtime.Invariant.{run, new-IsCoherent}
use led_platform.Runtime.Graph.{unarmed}
use led_platform.Hal.NetworkGuard.{NetworkPolicyError, wifi_active}
use led_platform.Daemon.Output.Protocol.{OutputProtocol}
use led_platform.Daemon.Output.Config.{SocketAddr, OutputConfig, todos_loopback}
use led_platform.Daemon.Preflight.{
  Presence, missing, preflight, assumed_by_operator, satisfies_preflight,
}
use led_platform.Daemon.Preflight.Decision.{
  on_wire, tells_refusal, preflight-report, AllRefused, refused-run,
}

-- Addresses are numbers, none of them this machine; WiFi is up.
abbrev net : SocketAddr ℕ
net = record { same_addr = λ a b. a == b; is_loopback = λ a. false; parse_addr = λ t. none }

abbrev silent : ℕ → Presence
silent a = missing (a ∷ [])

abbrev wifi_up : Option NetworkPolicyError
wifi_up = some (wifi_active ((b'w' ∷ []) ∷ []))

abbrev output : OutputConfig ℕ ℕ
output = record {
  protocol = OutputProtocol.ddp;
  alvos =
      record {
        addr = 9;
        first_universe = 0;
        pixel_offset = 0;
        pixel_count = 1;
        escapa_blackout = false;
      }
      ∷ [];
  pixel_count = 1;
  color = ColorFormat.rgb grb;
  pixels_per_universe = 170;
  ports = 1;
  max_pixels = 1;
  transport = record { mtu_bytes = 1500; heartbeat_ms = 800 };
  calibration = record { gamma = 1; brightness = 1 };
  supports_discovery = true;
}

preflight-report_example :
    let p = preflight net wifi_up silent assumed_by_operator (some output) true in
    (p.report.integrity_verified ≡ satisfies_preflight assumed_by_operator)
    × (p.report.network_ok ≡ not (on_wire net (some output) && true))
    × (p.report.devices_present ≡ not (on_wire net (some output) && true))
    × (tells_refusal p.notices ≡ not p.report.network_ok)
preflight-report_example =
    preflight-report net wifi_up silent assumed_by_operator (some output) true

abbrev refused_report : PreflightReport
refused_report = (preflight net wifi_up silent assumed_by_operator (some output) true).report

abbrev show : ShowDescriptor
show = record { id = 7; frame_count = 100; pixel_count = 1; duration_ms = 4000 }

same_report : (q r : PreflightReport) → arm q ≡ arm r → r ≡ q
same_report q r e = cc

load-ne-arm : (r : PreflightReport) → load show ≢ arm r
load-ne-arm r e = cc

play-ne-arm : (r : PreflightReport) → play ≢ arm r
play-ne-arm r e = cc

on_network : on_wire net (some output) ≡ true
unfolding todos_loopback
on_network = refl

abbrev attempt : List (Command × ℕ)
attempt = (load show, 0) ∷ (arm refused_report, 5) ∷ (play, 6) ∷ []

attempt-AllRefused : AllRefused ℕ net wifi_up silent attempt
attempt-AllRefused = (
  (λ r e. absurd (load-ne-arm r e)),
  (
    (λ r e.
        (assumed_by_operator, some output, true, same_report refused_report r e, on_network, refl)),
    ((λ r e. absurd (play-ne-arm r e)), tt),
  ),
)

refused-run_example : unarmed (run new attempt).state ≡ true
unfolding new
refused-run_example =
    refused-run ℕ net wifi_up silent new attempt new-IsCoherent refl attempt-AllRefused
