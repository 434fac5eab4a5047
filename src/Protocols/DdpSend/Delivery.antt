-- ===== src/Protocols/DdpSend/Delivery.antt =====
-- `DdpDevice::send_pixels`: the datagrams of a call put the frame together again.
use mathlib.Core.List.{append-nil, append_assoc}
use led_platform.Prelude.{
  ap, sym, take-append-drop, u32, ◌∙◌, drop, length-drop, length-take, min, mul_mono, none, take,
  u8, [], length, refl, some, suc, true, zero, ◌*◌, ◌++◌, ◌+◌, ◌<◌, ◌∷◌, ◌≤◌, Bool, Option, List, ℕ,
  arith, ◌≡◌,
}
use led_platform.Color.{PixelColor, ColorFormat, rgbw, channels, write}
use led_platform.Protocols.Ddp.{
  max_pixels_per_packet, build_ddp_packet_format, parse_ddp_packet, format_payload,
  length-format_payload, dtype_of, parse-build_format, header,
}
use led_platform.Protocols.DdpSend.{
  DdpDevice, max_pixels, max_px_of, finished, send_from, send_pixels, receive, buf_len,
}

format_payload-append :
    (f : ColorFormat) (xs ys : List PixelColor)
    → format_payload f (xs ++ ys) ≡ format_payload f xs ++ format_payload f ys
unfolding format_payload
format_payload-append f [] ys = refl
format_payload-append f (px ∷ xs) ys = rw (
  format_payload-append f xs ys,
  append_assoc (write f px) (format_payload f xs) (format_payload f ys),
)

built :
    (seq offset : ℕ) (f : ColorFormat) (px : List PixelColor)
    → 0 < length px
    → length px ≤ max_pixels_per_packet f
    → build_ddp_packet_format buf_len seq offset px f
      ≡ some (header seq (dtype_of f) offset (length px * channels f) (format_payload f px))
unfolding build_ddp_packet_format
built seq offset (ColorFormat.rgb order) px pos le = ground arith
built seq offset (rgbw order wm) px pos le = ground arith

-- A chunk within the limit is a packet, and the packet is read back.
build-parse :
    (seq offset : ℕ) (f : ColorFormat) (px : List PixelColor)
    → 0 < length px
    → length px ≤ max_pixels_per_packet f
    → offset < 4294967296
    → (packet : List ℕ) × (build_ddp_packet_format buf_len seq offset px f ≡ some packet)
      × (parse_ddp_packet packet
          ≡ some (record {
            seq = seq;
            dtype = dtype_of f;
            offset_bytes = offset;
            payload = format_payload f px;
          }))
build-parse seq offset f px pos le lt =
    let packet = header seq (dtype_of f) offset (length px * channels f) (format_payload f px) in
    let b = built seq offset f px pos le in
    (
      packet,
      b,
      rw (append-nil packet) at (parse-build_format buf_len seq offset px f packet [] lt b),
    )

received :
    (seq offset : ℕ) (packet : List ℕ) (dtype : ℕ) (payload : List ℕ) (ds : List (List ℕ))
    (bytes : List ℕ)
    → parse_ddp_packet packet
      ≡ some (record { seq = seq; dtype = dtype; offset_bytes = offset; payload = payload })
    → receive (u8 (seq + 1)) (offset + length payload) ds ≡ some bytes
    → receive seq offset (packet ∷ ds) ≡ some (payload ++ bytes)
unfolding receive
received seq offset packet dtype payload ds bytes p e = rw (p, receive) (rw e (ground arith))

max_px_of-le : (limit : Option ℕ) (teto : ℕ) → max_px_of limit teto ≤ teto
max_px_of-le none teto = omega arith
max_px_of-le (some n) teto = omega arith

max_pixels-le : (d : DdpDevice) → max_pixels d ≤ max_pixels_per_packet (d.format)
unfolding max_pixels
max_pixels-le d = max_px_of-le (d.max_px_override) (max_pixels_per_packet (d.format))

module _ (accepts : ℕ → Bool) (all : (k : ℕ) → accepts k ≡ true) where
  send_from-receive :
      (fuel k sent : ℕ) (rest : List PixelColor) (d : DdpDevice)
      → 0 < max_pixels d
      → length rest ≤ fuel
      → (d.pixel_offset + sent + length rest) * channels (d.format) < 4294967296
      → ((send_from accepts fuel k sent rest d).sending ≡ finished)
        × (receive
              (d.seq)
              ((d.pixel_offset + sent) * channels (d.format))
              (send_from accepts fuel k sent rest d).datagrams
            ≡ some (format_payload (d.format) rest))
  unfolding send_from receive format_payload
  send_from-receive fuel k sent [] d pos le lt = (refl, refl)
  send_from-receive zero k sent (px ∷ rest) d pos le lt = absurd (omega (arith, le))
  send_from-receive (suc fuel) k sent (px ∷ rest) d pos le lt =
      let l : List PixelColor = px ∷ rest in
      let f : ColorFormat = d.format in
      let count : ℕ = min (max_pixels d) (length l) in
      let offset : ℕ = (d.pixel_offset + sent) * channels f in
      let n : length (take count l) ≡ count = omega (arith, length-take count l) in
      let m : length (drop count l) + count ≡ length l = omega (arith, length-drop count l) in
      let small : offset < 4294967296 =
        omega (
          arith,
          mul_mono (d.pixel_offset + sent) (d.pixel_offset + sent + length l) (channels f),
        ) in
      let (packet, b, p) =
        build-parse (d.seq) offset f (take count l) (omega (arith, n))
          (omega (arith, n, max_pixels-le d)) small in
      let next : DdpDevice = record d { seq = u8 (d.seq + 1) } in
      let goes_on : (d.pixel_offset + (sent + count) + length (drop count l))
          ≡ d.pixel_offset + sent + length l =
        omega (arith, m) in
      let ih =
        send_from-receive fuel (suc k) (sent + count) (drop count l) next pos (omega (arith, m))
          (rw goes_on lt) in
      let chunk : length (format_payload f (take count l)) ≡ count * channels f =
        rw n at (length-format_payload f (take count l)) in
      let narrow : u32 offset ≡ offset = omega (arith, small) in
      let after : offset + length (format_payload f (take count l))
          ≡ (d.pixel_offset + (sent + count)) * channels f =
        grind (arith, chunk) in
      let whole : format_payload f (take count l) ++ format_payload f (drop count l)
          ≡ format_payload f l =
        sym (format_payload-append f (take count l) (drop count l))
        ∙ ap (format_payload f) (take-append-drop count l) in
      (
        rw (all k, narrow, b) (ih.0),
        rw (all k, narrow, b)
            (received (d.seq) offset packet _ _ _ _ p (rw after (ih.1))
              ∙ ap (λ (bytes : List ℕ). some bytes) whole),
      )

  -- On a socket that takes every datagram, with room for a pixel in a packet and byte offsets
  -- below 2^32, `send_pixels` finishes, and a receiver that asks for consecutive sequence numbers
  -- and byte offsets from the first puts its datagrams together to the bytes of all the pixels.
  pub send_pixels-receive :
      (pixels : List PixelColor) (d : DdpDevice)
      → 0 < max_pixels d
      → (d.pixel_offset + length pixels) * channels (d.format) < 4294967296
      → ((send_pixels accepts pixels d).sending ≡ finished)
        × (receive
              (d.seq)
              (d.pixel_offset * channels (d.format))
              (send_pixels accepts pixels d).datagrams
            ≡ some (format_payload (d.format) pixels))
  unfolding send_pixels
  send_pixels-receive pixels d pos lt =
      let z : d.pixel_offset + 0 ≡ d.pixel_offset = omega arith in
      rw z at (send_from-receive (length pixels) 0 0 pixels d pos (omega arith) (rw z lt))
