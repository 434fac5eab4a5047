-- ===== src/Recorder/Format.antt =====
-- crates/led-show-recorder/src/lib.rs: the `.lumyx` file. The sink is a list that takes every byte,
-- the source a list that ends; the errors of real files are left out. An `f32` is its 32 bits, which
-- is what the file holds.
pub mod Reader
pub mod Bytes
pub mod RoundTrip
pub mod Total
use led_platform.Prelude.{
  [], false, if◌then◌else◌, length, none, some, take, true, u32, u8, ◌++◌, ◌+◌, ◌/◌, ◌==◌, ◌∷◌,
  Bool, Option, List, ℕ, arith, ◌≡◌,
}
use led_platform.Color.{PixelColor}

pub record AudioSnapshot : Type 0 where
  pub sample_rate : ℕ
  pub rms : ℕ
  pub beat : Bool
  pub bpm : ℕ
  pub bass_energy : ℕ
  pub mid_energy : ℕ
  pub high_energy : ℕ

pub record ShowRecord : Type 0 where
  pub timestamp_ms : ℕ
  pub pixels : List PixelColor
  pub audio : Option AudioSnapshot

-- `u32::to_le_bytes` and `u64::to_le_bytes`, before what was written later.
abbrev pub u32_le : ℕ → List ℕ → List ℕ
u32_le n rest = u8 n ∷ u8 (n / 256) ∷ u8 (n / 65536) ∷ u8 (n / 16777216) ∷ rest

abbrev pub u64_le : ℕ → List ℕ → List ℕ
u64_le n rest = u32_le (u32 n) (u32_le (n / 4294967296) rest)

abbrev pub bool_byte : Bool → ℕ
bool_byte true = 1
bool_byte false = 0

-- `AudioSnapshot::write_to`.
unfoldable pub audio_bytes : AudioSnapshot → List ℕ → List ℕ
audio_bytes a rest = u32_le a.sample_rate (
    u32_le a.rms (
      bool_byte a.beat
      ∷ u32_le a.bpm (u32_le a.bass_energy (u32_le a.mid_energy (u32_le a.high_energy rest)))))

unfoldable pub pixels_bytes : List PixelColor → List ℕ → List ℕ
pixels_bytes [] rest = rest
pixels_bytes (px ∷ pixels) rest = px.r ∷ px.g ∷ px.b ∷ pixels_bytes pixels rest

unfoldable pub flag_bytes : Option AudioSnapshot → List ℕ → List ℕ
flag_bytes none rest = 0 ∷ rest
flag_bytes (some a) rest = 1 ∷ audio_bytes a rest

unfoldable pub record_bytes : ShowRecord → List ℕ → List ℕ
record_bytes r rest = u64_le r.timestamp_ms (pixels_bytes r.pixels (flag_bytes r.audio rest))

-- `frame_count` is a `u32`. The bytes written so far, in `header` and `body`.
pub record ShowWriter : Type 0 where
  pub header : List ℕ
  pub body : List ℕ
  pub pixel_count : ℕ
  pub frame_count : ℕ

unfoldable pub header_bytes : ℕ → ℕ → List ℕ
header_bytes pixel_count frame_count =
    0x4c ∷ 0x55 ∷ 0x4d ∷ 0x58 ∷ u32_le 1 (u32_le pixel_count (u32_le frame_count []))

unfoldable pub writer_new : ℕ → ShowWriter
unfolding header_bytes
writer_new pixel_count = record {
  header = header_bytes pixel_count 0;
  body = [];
  pixel_count = pixel_count;
  frame_count = 0;
}

-- `none` is the error `InvalidInput`, which leaves the sink alone.
unfoldable pub write_frame : ShowWriter → ShowRecord → Option ShowWriter
unfolding record_bytes
write_frame w r =
    if u32 (length r.pixels) == w.pixel_count
    then some
        (record w { body = w.body ++ record_bytes r []; frame_count = u32 (w.frame_count + 1) })
    else none

-- `finalise_seekable`: the count over the placeholder.
unfoldable pub finalise : ShowWriter → ShowWriter
unfolding header_bytes
finalise w = record w { header = take 12 w.header ++ u32_le w.frame_count [] }

abbrev pub file_of : ShowWriter → List ℕ
file_of w = w.header ++ w.body

unfoldable pub write_frames : ShowWriter → List ShowRecord → Option ShowWriter
unfolding write_frame
write_frames w [] = some w
write_frames w (r ∷ rs) = elim (write_frame w r) [ none ↦ none | some w' ↦ write_frames w' rs ]
