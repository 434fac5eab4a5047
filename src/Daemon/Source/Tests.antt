-- ===== src/Daemon/Source/Tests.antt =====
-- A show of two frames of one pixel, looked up forwards and backwards.
use led_platform.Prelude.{List, [], arith, drop, none, ok, refl, ℕ, ◌∷◌, ◌≡◌}
use led_platform.Recorder.Format.{ShowRecord}
use led_platform.Recorder.Format.Reader.{
  read_u64, read_u32, read_record, read_pixels, read_flag, ShowReader, reader_new, next_frame,
}
use led_platform.Daemon.Source.{FrameSource, open_source}
use led_platform.Daemon.Source.Cursor.{AllShow, Yields, open_source-AllShow}

abbrev frame : ℕ → ℕ → ShowRecord
frame t level = record {
  timestamp_ms = t;
  pixels = record { r = level; g = level; b = level } ∷ [];
  audio = none;
}

abbrev body : List ℕ
body =
    10 ∷ 0 ∷ 0 ∷ 0 ∷ 0 ∷ 0 ∷ 0 ∷ 0 ∷ 7 ∷ 7 ∷ 7 ∷ 0 ∷ 40 ∷ 0 ∷ 0 ∷ 0 ∷ 0 ∷ 0 ∷ 0 ∷ 0 ∷ 9 ∷ 9 ∷ 9 ∷ 0
    ∷ []

abbrev file : List ℕ
file = 0x4c ∷ 0x55 ∷ 0x4d ∷ 0x58 ∷ 1 ∷ 0 ∷ 0 ∷ 0 ∷ 1 ∷ 0 ∷ 0 ∷ 0 ∷ 2 ∷ 0 ∷ 0 ∷ 0 ∷ body

abbrev at : List ℕ → ℕ → ShowReader
at bytes n = record { inner = bytes; pixel_count = 1; frame_count_hint = 2; frames_read = n }

file_opens : reader_new file ≡ ok (at body 0)
unfolding reader_new read_u32
file_opens = refl

file_yields : Yields (at body 0) (frame 10 7 ∷ frame 40 9 ∷ [])
unfolding next_frame read_u64 read_u32 read_record read_pixels read_flag
file_yields = (at (drop 12 body) 1, refl, (at [] 2, refl, refl))

open_source-AllShow_example :
    (s : FrameSource) × (open_source file ≡ ok s)
    × AllShow file
        (frame 10 7)
        (frame 40 9 ∷ [])
        (at body 0)
        file_opens
        file_yields
        (omega arith, tt)
        s
        (0 ∷ 50 ∷ 12 ∷ [])
open_source-AllShow_example =
    open_source-AllShow file (frame 10 7) (frame 40 9 ∷ []) (at body 0) file_opens file_yields
      (omega arith, tt) (0 ∷ 50 ∷ 12 ∷ [])
