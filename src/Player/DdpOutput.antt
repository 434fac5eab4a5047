-- ===== src/Player/DdpOutput.antt =====
-- crates/led-player/src/lib.rs: `DdpOutput`, over `DdpDevice` of crates/led-protocols. `bound` is whether
-- the socket could be opened, and `accepts k` whether it takes datagram `k` of a call; `wire` keeps
-- the datagrams of the last call, which the code hands to the socket.
use led_platform.Prelude.{Bool, List, Option, [], if◌then◌else◌, max, none, some, u16, ℕ}
use led_platform.Color.{ColorFormat, RgbOrder}
use led_platform.Hardware.Repartition.{div_ceil}
use led_platform.Hal.Output.{OutputError, transport}
use led_platform.Protocols.DdpSend.{DdpDevice, Sent, Sending, finished, set_max_pixels, send_pixels}
use led_platform.Daemon.Output.Manager.{LogicalFrame, ProtocolOutput}

pub record DdpOutput : Type 0 where
  pub dev : DdpDevice
  pub universes_equiv : ℕ
  pub wire : List (List ℕ)

-- `DdpDevice::bound`, with the socket open.
abbrev pub device : ℕ → ColorFormat → DdpDevice
device pixel_offset format = record {
  seq = 0;
  format = format;
  pixel_offset = pixel_offset;
  max_px_override = none;
}

unfoldable pub open_bound : Bool → ℕ → ColorFormat → Option DdpOutput
open_bound bound pixel_count format =
    if bound
    then some (record {
      dev = device 0 format;
      universes_equiv = u16 (div_ceil pixel_count 170);
      wire = [];
    })
    else none

unfoldable pub open_rgb : Bool → ℕ → Option DdpOutput
unfolding open_bound
open_rgb bound pixel_count = open_bound bound pixel_count (ColorFormat.rgb RgbOrder.rgb)

unfoldable pub with_limits : Bool → ℕ → ColorFormat → ℕ → ℕ → Option DdpOutput
unfolding set_max_pixels
with_limits bound pixel_count format max_pixels_per_datagram pixels_per_universe =
    if bound
    then some (record {
      dev = set_max_pixels (device 0 format) max_pixels_per_datagram;
      universes_equiv = u16 (div_ceil pixel_count (max pixels_per_universe 1));
      wire = [];
    })
    else none

unfoldable pub with_pixel_offset : DdpOutput → ℕ → DdpOutput
with_pixel_offset o pixel_offset = record o {
  dev = record {
    seq = o.dev.seq;
    format = o.dev.format;
    pixel_offset = pixel_offset;
    max_px_override = o.dev.max_px_override;
  };
}

abbrev pub answer_of : Sending → Option OutputError
answer_of finished = none
answer_of _ = some transport

abbrev pub after_sending : DdpOutput → Sent → DdpOutput × Option OutputError
after_sending o s = (
  record { dev = s.device; universes_equiv = o.universes_equiv; wire = s.datagrams },
  answer_of s.sending,
)

unfoldable pub send_frame : (ℕ → Bool) → DdpOutput → LogicalFrame → DdpOutput × Option OutputError
unfolding send_pixels
send_frame accepts o frame = after_sending o (send_pixels accepts frame.pixels o.dev)

-- `impl ProtocolOutput for DdpOutput`.
abbrev pub ddp_output : (ℕ → Bool) → ProtocolOutput DdpOutput
ddp_output accepts = record {
  send_frame = send_frame accepts;
  universe_count = λ o. o.universes_equiv;
}
