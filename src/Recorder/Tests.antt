-- ===== src/Recorder/Tests.antt =====
-- A recording of two frames, one that is cut short, and a file that cannot be read.
use led_platform.Recorder.Format.Bytes.{IsAudio, IsRecord}
use led_platform.Recorder.Format.Total.{collect_all-Ends}
use led_platform.Recorder.Format.RoundTrip.{collect_all-write_frames, AllRecords}
use led_platform.Recorder.Format.Reader.{
  io, collect_all, reader_new, ReadError, ShowReader, read_file,
}
use led_platform.Prelude.{
  List, Result, arith, length, ok, refl, true, u32, [], ◌++◌, ◌∷◌, ◌≡◌, some, none,
}
use led_platform.Recorder.Format.{
  finalise, file_of, writer_new, write_frames, AudioSnapshot, ShowWriter, ShowRecord,
}
use led_platform.Recorder.Replay.{cross_node_verify-unreadable, cross_node_verify}

abbrev dark : ShowRecord
dark = record { timestamp_ms = 0; pixels = record { r = 0; g = 0; b = 0 } ∷ []; audio = none }

-- Its `rms` is a NaN and its `bass_energy` an infinity.
abbrev heard : AudioSnapshot
heard = record {
  sample_rate = 44100;
  rms = 2143289344;
  beat = true;
  bpm = 1123024896;
  bass_energy = 2139095040;
  mid_energy = 0;
  high_energy = 0;
}

abbrev show : List ShowRecord
show =
    dark
    ∷ record {
      timestamp_ms = 25;
      pixels = record { r = 255; g = 0; b = 0 } ∷ [];
      audio = some heard;
    }
    ∷ []

heard-IsAudio : IsAudio heard
heard-IsAudio = record {
  sample_rate = omega arith;
  rms = omega arith;
  bpm = omega arith;
  bass_energy = omega arith;
  mid_energy = omega arith;
  high_energy = omega arith;
}

show-AllRecords : AllRecords 1 show
show-AllRecords =
    let first : IsRecord 1 dark = record { timestamp = omega arith; pixels = refl; audio = tt } in
    (first, (record { timestamp = omega arith; pixels = refl; audio = heard-IsAudio }, tt))

collect_all-write_frames_example :
    (w : ShowWriter) × (r : ShowReader) × (write_frames (writer_new 1) show ≡ some w)
    × (reader_new (file_of (finalise w) ++ 1 ∷ 2 ∷ []) ≡ ok r)
    × (r.frame_count_hint ≡ u32 (length show))
    × (collect_all r ≡ some (ok show))
collect_all-write_frames_example =
    collect_all-write_frames 1 show (1 ∷ 2 ∷ []) (omega arith) show-AllRecords (omega arith)

abbrev cut : ShowReader
cut = record {
  inner = 0 ∷ 0 ∷ 0 ∷ 0 ∷ 0 ∷ 0 ∷ 0 ∷ 0 ∷ 9 ∷ [];
  pixel_count = 1;
  frame_count_hint = 1;
  frames_read = 0;
}

collect_all-Ends_example : (res : Result ReadError (List ShowRecord)) × (collect_all cut ≡ some res)
collect_all-Ends_example = collect_all-Ends cut

cross_node_verify-unreadable_example : cross_node_verify (0x4c ∷ []) (0x4c ∷ 0x55 ∷ []) ≡ none
unfolding read_file reader_new
cross_node_verify-unreadable_example =
    cross_node_verify-unreadable (0x4c ∷ []) (0x4c ∷ 0x55 ∷ []) io refl
