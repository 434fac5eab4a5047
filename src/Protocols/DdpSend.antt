-- ===== src/Protocols/DdpSend.antt =====
-- crates/led-protocols/src/ddp.rs: `DdpDevice::send_pixels`, one frame in as many datagrams as it
-- takes. `rest` is `pixels[sent..]`; `accepts k` tells whether the socket takes datagram `k` of the
-- call. Each round but the last sends a full packet, so fuel for one round per pixel is enough.
pub mod Delivery
use led_platform.Prelude.{
  [], drop, if◌then◌else◌, length, max, min, none, some, suc, take, u32, u8, zero, ◌&&◌, ◌*◌, ◌++◌,
  ◌+◌, ◌==◌, ◌∷◌, Bool, Option, List, ℕ,
}
use led_platform.Color.{PixelColor, ColorFormat, channels}
use led_platform.Protocols.Ddp.{
  max_pixels_per_packet, build_ddp_packet_format, parse_ddp_packet, DdpPacket,
}

pub record DdpDevice : Type 0 where
  pub seq : ℕ
  pub format : ColorFormat
  pub pixel_offset : ℕ
  pub max_px_override : Option ℕ

pub data Sending : Type 0 where
  finished failed panicked unfinished : Sending

-- The device after the call, the datagrams that the socket took, and how the call ended.
pub record Sent : Type 0 where
  pub device : DdpDevice
  pub datagrams : List (List ℕ)
  pub sending : Sending

unfoldable pub set_max_pixels : DdpDevice → ℕ → DdpDevice
set_max_pixels d n = record d { max_px_override = some (max n 1) }

abbrev pub max_px_of : Option ℕ → ℕ → ℕ
max_px_of none teto = teto
max_px_of (some n) teto = min n teto

unfoldable pub max_pixels : DdpDevice → ℕ
max_pixels d = max_px_of (d.max_px_override) (max_pixels_per_packet (d.format))

abbrev pub buf_len : ℕ
buf_len = 1471

abbrev pub push_datagram : List ℕ → Sent → Sent
push_datagram packet s = record {
  device = s.device;
  datagrams = packet ∷ s.datagrams;
  sending = s.sending;
}

abbrev pub stopped : DdpDevice → Sending → Sent
stopped d how = record { device = d; datagrams = []; sending = how }

-- What the loop does with the packet that it built.
abbrev pub send_packet : Bool → DdpDevice → Option (List ℕ) → Sent → Sent
send_packet taken d none rest = stopped d panicked
send_packet taken d (some packet) rest =
    if taken then push_datagram packet rest else stopped d failed

unfoldable pub send_from : (ℕ → Bool) → ℕ → ℕ → ℕ → List PixelColor → DdpDevice → Sent
unfolding max_pixels
send_from accepts fuel k sent [] d = stopped d finished
send_from accepts zero k sent rest d = stopped d unfinished
send_from accepts (suc fuel) k sent rest d =
    let count = min (max_pixels d) (length rest) in
    let byte_offset = u32 ((d.pixel_offset + sent) * channels (d.format)) in
    let packet = build_ddp_packet_format buf_len (d.seq) byte_offset (take count rest) (d.format) in
    send_packet (accepts k) d packet (
      send_from accepts fuel (suc k) (sent + count) (drop count rest)
        (record d { seq = u8 (d.seq + 1) }))

unfoldable pub send_pixels : (ℕ → Bool) → List PixelColor → DdpDevice → Sent
unfolding send_from
send_pixels accepts pixels d = send_from accepts (length pixels) 0 0 pixels d

-- A receiver: the payloads of datagrams whose offsets and sequence numbers go on from the first.
abbrev pub join : ℕ → ℕ → DdpPacket → Option (List ℕ) → Option (List ℕ)
join seq offset p none = none
join seq offset p (some bytes) =
    if p.seq == seq && p.offset_bytes == offset then some (p.payload ++ bytes) else none

unfoldable pub receive : ℕ → ℕ → List (List ℕ) → Option (List ℕ)
receive seq offset [] = some []
receive seq offset (d ∷ ds) = elim (parse_ddp_packet d) [
  | none ↦ none
  | some p ↦ join seq offset p (receive (u8 (seq + 1)) (offset + length (p.payload)) ds)
]
