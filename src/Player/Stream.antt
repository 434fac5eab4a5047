-- ===== src/Player/Stream.antt =====
-- crates/led-player/src/stream.rs: `play_streaming_unverified`, over `ShowReader` of the recorder.
-- `clock k` is what reading `k` of the clock gives: reading 0 at the start, one for each frame, which
-- playing at once does not look at, and one at the end. The sleeps only pass time, which the clock
-- shows. Each frame takes a byte of the file at least, so fuel for one round per byte and one more is
-- enough.
pub mod Yields
pub mod Handed
pub mod Counted
use led_platform.Prelude.{
  Option, Result, err, if◌then◌else◌, leb, length, ltb, max, none, not, ok, saturating_add, some,
  suc, u64, zero, ℕ, ◌&&◌, ◌+◌, ◌-◌, ◌==◌,
}
use led_platform.Recorder.Format.{ShowRecord}
use led_platform.Recorder.Format.Reader.{ReadError, ShowReader, next_frame}
use led_platform.Hal.Output.{OutputError}
use led_platform.Daemon.Output.Manager.{LogicalFrame, ProtocolOutput}
use led_platform.Player.Playback.{frame_of}

pub data Pacing : Type 0 where
  absolute : ℕ → Pacing
  at_once : Pacing

pub record StreamReport : Type 0 where
  pub frames_played : ℕ
  pub frames_failed : ℕ
  pub duration_ms : ℕ
  pub pixel_count : ℕ
  pub frames_late : ℕ
  pub worst_late_ms : ℕ

-- The variables of the loop.
pub record Streaming (O : Type 0) : Type 0 where
  pub output : O
  pub played : ℕ
  pub failed : ℕ
  pub frames_late : ℕ
  pub worst_late_ms : ℕ
  pub prev_ts : Option ℕ
  pub period_ms : ℕ

abbrev pub begun : {O : Type 0} → O → Streaming O
begun out = record {
  output = out;
  played = 0;
  failed = 0;
  frames_late = 0;
  worst_late_ms = 0;
  prev_ts = none;
  period_ms = 0;
}

-- How late a frame is, at a reading of the clock.
abbrev pub late_by : Pacing → ℕ → ℕ → ℕ
late_by at_once now timestamp_ms = 0
late_by (absolute epoch_ms) now timestamp_ms = now - saturating_add epoch_ms timestamp_ms

abbrev pub period_after : Option ℕ → ℕ → ℕ → ℕ
period_after none timestamp_ms period_ms = period_ms
period_after (some p) timestamp_ms period_ms = max (timestamp_ms - p) period_ms

module _ {O : Type 0} (driver : ProtocolOutput O) where
  abbrev pub noted : Streaming O → ℕ → Streaming O
  noted st timestamp_ms = record st {
    prev_ts = some timestamp_ms;
    period_ms = period_after st.prev_ts timestamp_ms st.period_ms;
  }

  abbrev pub tardy : Streaming O → ℕ → Streaming O
  tardy st late = if late == 0 then st else record st {
    worst_late_ms = max st.worst_late_ms late;
    frames_late = u64 (st.frames_late + 1);
  }

  abbrev pub shown : Streaming O → O × Option OutputError → Streaming O
  shown st (out, none) = record st { output = out; played = u64 (st.played + 1) }
  shown st (out, some e) = record st { output = out; failed = u64 (st.failed + 1) }

  -- The rest of a round; a frame that was overtaken is left out.
  unfoldable pub on_frame : Streaming O → ℕ → ShowRecord → Streaming O
  on_frame st late rec =
      if not (late == 0) && ltb 0 st.period_ms && leb st.period_ms late
      then tardy st late
      else shown (tardy st late) (driver.send_frame st.output (frame_of rec))

  unfoldable pub round : Pacing → ℕ → Streaming O → ShowRecord → Streaming O
  unfolding on_frame
  round pacing now st rec =
      on_frame (noted st rec.timestamp_ms) (late_by pacing now rec.timestamp_ms) rec

  module _ (pacing : Pacing) (clock : ℕ → ℕ) where
    abbrev pub report_of : ℕ → ℕ → Streaming O → StreamReport
    report_of pixel_count k st = record {
      frames_played = st.played;
      frames_failed = st.failed;
      duration_ms = clock k - clock 0;
      pixel_count = pixel_count;
      frames_late = st.frames_late;
      worst_late_ms = st.worst_late_ms;
    }

    -- The result with the output, which keeps what it was sent before an error.
    unfoldable pub stream_from :
        ℕ → ℕ → ShowReader → Streaming O → Option (Result ReadError ℕ × Streaming O)
    unfolding next_frame round
    stream_from zero k r st = none
    stream_from (suc fuel) k r st = elim (next_frame r) [
      | err e ↦ some (err e, st)
      | ok none ↦ some (ok k, st)
      | ok (some (rec, r')) ↦ stream_from fuel (suc k) r' (round pacing (clock k) st rec)
    ]

    abbrev pub streamed :
        ℕ → Option (Result ReadError ℕ × Streaming O) → Option (O × Result ReadError StreamReport)
    streamed pixel_count none = none
    streamed pixel_count (some (err e, st)) = some (st.output, err e)
    streamed pixel_count (some (ok k, st)) = some (st.output, ok (report_of pixel_count k st))

    unfoldable pub play_streaming : ShowReader → O → Option (O × Result ReadError StreamReport)
    unfolding stream_from
    play_streaming r out =
        streamed r.pixel_count (stream_from (suc (length r.inner)) 1 r (begun out))
