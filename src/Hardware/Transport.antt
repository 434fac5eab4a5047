-- ===== src/Hardware/Transport.antt =====
-- crates/led-hardware-profile/src/lib.rs: `Transport`, what the network path of a node bears.
use led_platform.Prelude.{Bool, ltb, max, min, u32, ℕ, ◌&&◌, ◌-◌, ◌/◌}
use led_platform.Color.{ColorFormat, channels}
use led_platform.Hardware.Profile.{Protocol, ddp, Transport}
use led_platform.Hardware.Repartition.{div_ceil}

abbrev pub ip_udp_overhead : ℕ
ip_udp_overhead = 28

-- `MAX_GAP_MS`.
abbrev pub max_gap_ms : ℕ
max_gap_ms = 2400

unfoldable pub udp_payload_bytes : Transport → ℕ
udp_payload_bytes t = t.mtu_bytes - ip_udp_overhead

abbrev pub header_of : Protocol → ℕ
header_of ddp = 10
header_of _ = 18

unfoldable pub pixels_per_datagram : Transport → Protocol → ColorFormat → ℕ → ℕ
unfolding udp_payload_bytes
pixels_per_datagram t ddp color pixels_per_universe =
    (udp_payload_bytes t - header_of ddp) / channels color
pixels_per_datagram t protocol color pixels_per_universe =
    min pixels_per_universe ((udp_payload_bytes t - header_of protocol) / channels color)

unfoldable pub datagrams_for : Transport → ℕ → Protocol → ColorFormat → ℕ → ℕ
unfolding pixels_per_datagram
datagrams_for t pixels protocol color pixels_per_universe =
    div_ceil pixels (u32 (max (pixels_per_datagram t protocol color pixels_per_universe) 1))

unfoldable pub heartbeat_is_safe : Transport → Bool
heartbeat_is_safe t = ltb 0 t.heartbeat_ms && ltb t.heartbeat_ms max_gap_ms
