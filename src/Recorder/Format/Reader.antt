-- ===== src/Recorder/Format/Reader.antt =====
-- crates/led-show-recorder/src/lib.rs: `ShowReader`. A source that ends is the one error of reading,
-- `io`; `collect_all` has fuel for its loop, and `none` where that runs out.
use led_platform.Prelude.{
  false, true, [], if◌then◌else◌, length, none, not, some, suc, u32, zero, ◌&&◌, ◌*◌, ◌+◌, ◌==◌,
  ◌>>=◌, ◌∷◌, Bool, Option, List, ℕ, Result, ok, err,
}
use led_platform.Color.{PixelColor}
use led_platform.Recorder.Format.{AudioSnapshot, ShowRecord}

pub data ReadError : Type 0 where
  io bad_magic : ReadError
  unsupported_version : ℕ → ReadError

abbrev pub Read : Type 0 → Type 0
Read A = List ℕ → Result ReadError (A × List ℕ)

abbrev pub read_byte : Read ℕ
read_byte [] = err io
read_byte (b ∷ bs) = ok (b, bs)

unfoldable pub read_u32 : Read ℕ
read_u32 (a ∷ b ∷ c ∷ d ∷ bs) = ok (a + b * 256 + c * 65536 + d * 16777216, bs)
read_u32 _ = err io

unfoldable pub read_u64 : Read ℕ
read_u64 bs = do (low, bs) ← read_u32 bs; (high, bs) ← read_u32 bs; ok (low + high * 4294967296, bs)

-- `AudioSnapshot::read_from`.
unfoldable pub read_audio : Read AudioSnapshot
read_audio bs = do
  (sample_rate, bs) ← read_u32 bs
  (rms, bs) ← read_u32 bs
  (beat, bs) ← read_byte bs
  (bpm, bs) ← read_u32 bs
  (bass, bs) ← read_u32 bs
  (mid, bs) ← read_u32 bs
  (high, bs) ← read_u32 bs
  ok (
    record {
      sample_rate = sample_rate;
      rms = rms;
      beat = not (beat == 0);
      bpm = bpm;
      bass_energy = bass;
      mid_energy = mid;
      high_energy = high;
    },
    bs,
  )

unfoldable pub read_pixels : ℕ → Read (List PixelColor)
read_pixels zero bs = ok ([], bs)
read_pixels (suc n) (r ∷ g ∷ b ∷ bs) =
    read_pixels n bs >>= λ p. ok (record { r = r; g = g; b = b } ∷ p.0, p.1)
read_pixels (suc n) _ = err io

unfoldable pub read_flag : Read (Option AudioSnapshot)
read_flag [] = err io
read_flag (flag ∷ bs) =
    let present = read_audio bs >>= λ p. ok (some p.0, p.1) in
    if flag == 1 then present else ok (none, bs)

unfoldable pub read_record : ℕ → ℕ → Read ShowRecord
read_record pixel_count timestamp_ms bs = do
  (pixels, bs) ← read_pixels pixel_count bs
  (audio, bs) ← read_flag bs
  ok (record { timestamp_ms = timestamp_ms; pixels = pixels; audio = audio }, bs)

pub record ShowReader : Type 0 where
  pub inner : List ℕ
  pub pixel_count : ℕ
  pub frame_count_hint : ℕ
  pub frames_read : ℕ

abbrev pub read_guard : Bool → ReadError → Result ReadError (Unit {0})
read_guard true e = ok tt
read_guard false e = err e

unfoldable pub reader_new : List ℕ → Result ReadError ShowReader
reader_new (a ∷ b ∷ c ∷ d ∷ bs) = do
  _ ← read_guard (a == 0x4c && (b == 0x55 && (c == 0x4d && d == 0x58))) bad_magic
  (version, bs) ← read_u32 bs
  _ ← read_guard (version == 1) (unsupported_version version)
  (pixel_count, bs) ← read_u32 bs
  (hint, bs) ← read_u32 bs
  ok (record { inner = bs; pixel_count = pixel_count; frame_count_hint = hint; frames_read = 0 })
reader_new _ = err io

abbrev pub frame_done :
    ShowReader
    → Result ReadError (ShowRecord × List ℕ)
    → Result ReadError (Option (ShowRecord × ShowReader))
frame_done r (err e) = err e
frame_done r (ok (rec, bs)) =
    ok (some (rec, record r { inner = bs; frames_read = u32 (r.frames_read + 1) }))

-- A source that ends in the timestamp, or before it, is the end of the file.
unfoldable pub next_frame : ShowReader → Result ReadError (Option (ShowRecord × ShowReader))
next_frame r = elim (read_u64 r.inner) [
  | err e ↦ ok none
  | ok (t, bs) ↦ frame_done r (read_record r.pixel_count t bs)
]

-- The loop, with the records pushed so far put before the rest.
abbrev pub push_record :
    ShowRecord
    → Option (Result ReadError (List ShowRecord))
    → Option (Result ReadError (List ShowRecord))
push_record rec (some (ok rs)) = some (ok (rec ∷ rs))
push_record rec (some (err e)) = some (err e)
push_record rec none = none

unfoldable pub collect_from : ℕ → ShowReader → Option (Result ReadError (List ShowRecord))
collect_from zero r = none
collect_from (suc fuel) r = elim (next_frame r) [
  | err e ↦ some (err e)
  | ok none ↦ some (ok [])
  | ok (some (rec, r')) ↦ push_record rec (collect_from fuel r')
]

unfoldable pub collect_all : ShowReader → Option (Result ReadError (List ShowRecord))
collect_all r = collect_from (suc (length r.inner)) r

-- Opening a file and collecting it.
unfoldable pub read_file : List ℕ → Option (Result ReadError (List ShowRecord))
read_file bytes = elim (reader_new bytes) [ err e ↦ some (err e) | ok r ↦ collect_all r ]
