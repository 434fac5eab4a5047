-- ===== src/Recorder/Format/Bytes.antt =====
-- What is written is read back, field by field and record by record.
use led_platform.Prelude.{
  [], false, length, none, not, refl, some, true, u32, u8, ◌*◌, ◌+◌, ◌/◌, ◌<◌, ◌==◌, ◌∷◌, Bool,
  Option, List, ℕ, arith, ◌≡◌, ok,
}
use led_platform.Color.{PixelColor}
use led_platform.Recorder.Format.{
  AudioSnapshot, ShowRecord, u32_le, u64_le, audio_bytes, pixels_bytes, flag_bytes, record_bytes,
  bool_byte,
}
use led_platform.Recorder.Format.Reader.{
  read_u32, read_u64, read_audio, read_pixels, read_flag, read_record, next_frame,
}

pub read_u32-u32_le :
    (n : ℕ) (rest : List ℕ) → n < 4294967296 → read_u32 (u32_le n rest) ≡ ok (n, rest)
unfolding read_u32
read_u32-u32_le n rest h =
    let e : u8 n + u8 (n / 256) * 256 + u8 (n / 65536) * 65536 + u8 (n / 16777216) * 16777216 ≡ n =
      omega arith in
    rw e

pub read_u32-u32_le_any : (n : ℕ) (rest : List ℕ) → read_u32 (u32_le n rest) ≡ ok (u32 n, rest)
unfolding read_u32
read_u32-u32_le_any n rest =
    let e : u8 n + u8 (n / 256) * 256 + u8 (n / 65536) * 65536 + u8 (n / 16777216) * 16777216
        ≡ u32 n =
      omega arith in
    rw e

read_u64-u64_le :
    (n : ℕ) (rest : List ℕ) → n < 18446744073709551616 → read_u64 (u64_le n rest) ≡ ok (n, rest)
unfolding read_u64
read_u64-u64_le n rest h =
    let e : u32 n + n / 4294967296 * 4294967296 ≡ n = omega arith in
    rw (
      read_u32-u32_le (u32 n) (u32_le (n / 4294967296) rest) (omega arith),
      read_u32-u32_le (n / 4294967296) rest (omega arith),
      e,
    )

pub record IsAudio (a : AudioSnapshot) : Type 0 where
  pub sample_rate : a.sample_rate < 4294967296
  pub rms : a.rms < 4294967296
  pub bpm : a.bpm < 4294967296
  pub bass_energy : a.bass_energy < 4294967296
  pub mid_energy : a.mid_energy < 4294967296
  pub high_energy : a.high_energy < 4294967296

abbrev pub IsFlag : Option AudioSnapshot → Type 0
IsFlag none = Unit {0}
IsFlag (some a) = IsAudio a

not-bool_byte : (b : Bool) → not (bool_byte b == 0) ≡ b
not-bool_byte true = refl
not-bool_byte false = refl

read_audio-audio_bytes :
    (a : AudioSnapshot) (rest : List ℕ) → IsAudio a → read_audio (audio_bytes a rest) ≡ ok (a, rest)
unfolding read_audio audio_bytes
read_audio-audio_bytes a rest h = rw (
  read_u32-u32_le a.sample_rate _ h.sample_rate,
  read_u32-u32_le a.rms _ h.rms,
  read_u32-u32_le a.bpm _ h.bpm,
  read_u32-u32_le a.bass_energy _ h.bass_energy,
  read_u32-u32_le a.mid_energy _ h.mid_energy,
  read_u32-u32_le a.high_energy _ h.high_energy,
  not-bool_byte a.beat,
)

read_pixels-pixels_bytes :
    (pixels : List PixelColor) (rest : List ℕ)
    → read_pixels (length pixels) (pixels_bytes pixels rest) ≡ ok (pixels, rest)
unfolding read_pixels pixels_bytes
read_pixels-pixels_bytes [] rest = refl
read_pixels-pixels_bytes (px ∷ pixels) rest = rw (read_pixels-pixels_bytes pixels rest)

read_flag-flag_bytes :
    (audio : Option AudioSnapshot) (rest : List ℕ)
    → IsFlag audio
    → read_flag (flag_bytes audio rest) ≡ ok (audio, rest)
unfolding read_flag flag_bytes
read_flag-flag_bytes none rest h = refl
read_flag-flag_bytes (some a) rest h = rw (read_audio-audio_bytes a rest h)

-- A record that the format holds.
pub record IsRecord (pixel_count : ℕ) (r : ShowRecord) : Type 0 where
  pub timestamp : r.timestamp_ms < 18446744073709551616
  pub pixels : length r.pixels ≡ pixel_count
  pub audio : IsFlag r.audio

pub next_frame-record_bytes :
    (pixel_count hint n : ℕ) (r : ShowRecord) (rest : List ℕ)
    → IsRecord pixel_count r
    → next_frame (record {
      inner = record_bytes r rest;
      pixel_count = pixel_count;
      frame_count_hint = hint;
      frames_read = n;
    })
      ≡ ok (
          some (
            r,
            record {
              inner = rest;
              pixel_count = pixel_count;
              frame_count_hint = hint;
              frames_read = u32 (n + 1);
            },
          ))
unfolding next_frame record_bytes
next_frame-record_bytes pixel_count hint n r rest h =
    let read : read_record pixel_count r.timestamp_ms
          (pixels_bytes r.pixels (flag_bytes r.audio rest))
        ≡ ok (r, rest) =
      unfold read_record in
      rw (← h.pixels) (
        rw (
          read_pixels-pixels_bytes r.pixels (flag_bytes r.audio rest),
          read_flag-flag_bytes r.audio rest h.audio,
        )) in
    rw
      (
        read_u64-u64_le r.timestamp_ms (pixels_bytes r.pixels (flag_bytes r.audio rest))
            h.timestamp,
        next_frame,
      )
      (rw read)
