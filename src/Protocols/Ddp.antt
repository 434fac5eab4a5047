-- ===== src/Protocols/Ddp.antt =====
-- crates/led-protocols/src/ddp.rs: the packets and their parser.
use Prim.Native.Nat.{bit_and}
use led_platform.Prelude.{
  dec_lt, ◌≤◌, Bool, List, Option, [], arith, if◌then◌else◌, leb, length, length-append, ltb, none,
  not, some, take, take-append_length, u8, ◌&&◌, ◌*◌, ◌++◌, ◌+◌, ◌/◌, ◌<◌, ◌==◌, ◌∷◌, ◌≡◌, ℕ,
}
use led_platform.Color.{length-write, PixelColor, ColorFormat, rgbw, channels, write}

abbrev pub ddp_max_pixels : ℕ
ddp_max_pixels = 487

abbrev pub ddp_max_payload : ℕ
ddp_max_payload = 1461

abbrev pub ddp_max_payload_bytes : ℕ
ddp_max_payload_bytes = 1462

abbrev pub ddp_dtype_rgb8 : ℕ
ddp_dtype_rgb8 = 0x01

abbrev pub ddp_dtype_rgbw8 : ℕ
ddp_dtype_rgbw8 = 0x33

abbrev pub ddp_flags1 : ℕ
ddp_flags1 = 0x41

abbrev pub max_pixels_per_packet : ColorFormat → ℕ
max_pixels_per_packet f = ddp_max_payload_bytes / channels f

-- The ten bytes that every builder writes first.
abbrev pub header : ℕ → ℕ → ℕ → ℕ → List ℕ → List ℕ
header seq dtype offset_bytes payload_len payload =
    ddp_flags1
    ∷ 0
    ∷ seq
    ∷ dtype
    ∷ u8 (offset_bytes / 16777216)
    ∷ u8 (offset_bytes / 65536)
    ∷ u8 (offset_bytes / 256)
    ∷ u8 offset_bytes
    ∷ u8 (payload_len / 256)
    ∷ u8 payload_len
    ∷ payload

unfoldable pub rgb_payload : List PixelColor → List ℕ
rgb_payload [] = []
rgb_payload (px ∷ pixels) = px.r ∷ px.g ∷ px.b ∷ rgb_payload pixels

-- The asserts that every builder makes, with its own limit.
abbrev pub fits_packet : ℕ → ℕ → ℕ → ℕ → Bool
fits_packet items limit buf_len total = ltb 0 items && (leb items limit && leb total buf_len)

unfoldable pub build_ddp_packet : ℕ → ℕ → ℕ → List PixelColor → Option (List ℕ)
unfolding rgb_payload
build_ddp_packet buf_len seq offset_bytes pixels =
    let payload_len = length pixels * 3 in
    if fits_packet (length pixels) ddp_max_pixels buf_len (10 + payload_len)
    then some (header seq ddp_dtype_rgb8 offset_bytes payload_len (rgb_payload pixels))
    else none

unfoldable pub format_payload : ColorFormat → List PixelColor → List ℕ
format_payload f [] = []
format_payload f (px ∷ pixels) = write f px ++ format_payload f pixels

abbrev pub dtype_of : ColorFormat → ℕ
dtype_of (ColorFormat.rgb order) = ddp_dtype_rgb8
dtype_of (rgbw order wm) = ddp_dtype_rgbw8

unfoldable pub build_ddp_packet_format : ℕ → ℕ → ℕ → List PixelColor → ColorFormat → Option (List ℕ)
unfolding format_payload
build_ddp_packet_format buf_len seq offset_bytes pixels f =
    let payload_len = length pixels * channels f in
    if fits_packet (length pixels) (max_pixels_per_packet f) buf_len (10 + payload_len)
    then some (header seq (dtype_of f) offset_bytes payload_len (format_payload f pixels))
    else none

unfoldable pub build_ddp_packet_bytes : ℕ → ℕ → ℕ → List ℕ → Option (List ℕ)
build_ddp_packet_bytes buf_len seq offset_bytes payload =
    if fits_packet (length payload) ddp_max_payload buf_len (10 + length payload)
    then some (header seq ddp_dtype_rgb8 offset_bytes (length payload) payload)
    else none

pub record DdpPacket : Type 0 where
  pub seq : ℕ
  pub dtype : ℕ
  pub offset_bytes : ℕ
  pub payload : List ℕ

-- After the length test the first ten bytes are there; `<<` and `|` of bytes are a sum.
unfoldable pub parse_ddp_packet : List ℕ → Option DdpPacket
parse_ddp_packet (flags1 ∷ _ ∷ seq ∷ dtype ∷ o₃ ∷ o₂ ∷ o₁ ∷ o₀ ∷ l₁ ∷ l₀ ∷ rest) =
    if not (bit_and flags1 0xc0 == 0x40)
    then none
    else if ltb (length rest) (l₁ * 256 + l₀)
    then none
    else some (record {
      seq = seq;
      dtype = dtype;
      offset_bytes = o₃ * 16777216 + o₂ * 65536 + o₁ * 256 + o₀;
      payload = take (l₁ * 256 + l₀) rest;
    })
parse_ddp_packet _ = none

pub length-format_payload :
    (f : ColorFormat) (pixels : List PixelColor)
    → length (format_payload f pixels) ≡ length pixels * channels f
unfolding format_payload
length-format_payload f [] = omega arith
length-format_payload f (px ∷ pixels) = omega (
  arith,
  length-append (write f px) (format_payload f pixels),
  length-write f px,
  length-format_payload f pixels,
)

-- A header with its payload is read back, whatever follows.
pub parse-header :
    (seq dtype offset : ℕ) (payload rest : List ℕ)
    → offset < 4294967296
    → length payload < 65536
    → parse_ddp_packet (header seq dtype offset (length payload) (payload ++ rest))
      ≡ some (record { seq = seq; dtype = dtype; offset_bytes = offset; payload = payload })
unfolding parse_ddp_packet
parse-header seq dtype offset payload rest o l =
    let n : u8 (length payload / 256) * 256 + u8 (length payload) ≡ length payload = omega arith in
    let m : u8 (offset / 16777216) * 16777216
          + u8 (offset / 65536) * 65536
          + u8 (offset / 256) * 256
          + u8 offset
        ≡ offset =
      omega arith in
    rw (n, m) (ground (arith, length-append payload rest, take-append_length payload rest))

-- With an offset below 2^32, a packet that `build_ddp_packet_bytes` builds is parsed back,
-- whatever follows it, to its sequence number, the RGB data type, its offset and its payload.
pub parse-build_bytes :
    (buf_len seq offset : ℕ) (payload packet rest : List ℕ)
    → offset < 4294967296
    → build_ddp_packet_bytes buf_len seq offset payload ≡ some packet
    → parse_ddp_packet (packet ++ rest)
      ≡ some
          (record { seq = seq; dtype = ddp_dtype_rgb8; offset_bytes = offset; payload = payload })
unfolding build_ddp_packet_bytes
parse-build_bytes buf_len seq offset payload packet rest o e =
    ground (arith, parse-header seq ddp_dtype_rgb8 offset payload rest)

fits-small :
    (pixels : List PixelColor) (f : ColorFormat)
    → length pixels ≤ max_pixels_per_packet f
    → length pixels * channels f < 65536
fits-small pixels (ColorFormat.rgb order) le = omega arith
fits-small pixels (rgbw order wm) le = omega arith

-- With an offset below 2^32, a packet that `build_ddp_packet_format` builds is parsed back,
-- whatever follows it, to its sequence number, data type, offset and the bytes of its pixels.
pub parse-build_format :
    (buf_len seq offset : ℕ) (pixels : List PixelColor) (f : ColorFormat) (packet rest : List ℕ)
    → offset < 4294967296
    → build_ddp_packet_format buf_len seq offset pixels f ≡ some packet
    → parse_ddp_packet (packet ++ rest)
      ≡ some (record {
        seq = seq;
        dtype = dtype_of f;
        offset_bytes = offset;
        payload = format_payload f pixels;
      })
unfolding build_ddp_packet_format
parse-build_format buf_len seq offset pixels f packet rest o e =
    let l = length-format_payload f pixels in
    let h = length-write f in
    let small : length pixels * channels f < 65536 =
      elim (dec_lt (length pixels * channels f) 65536) [
        | yes p ↦ p
        | no n ↦ absurd (ground (arith, fits-small pixels f))
      ] in
    ground (
      arith,
      l,
      small,
      parse-header seq (dtype_of f) offset (format_payload f pixels) rest (omega arith)
          (omega (arith, l, small)),
    )
