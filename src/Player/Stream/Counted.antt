-- ===== src/Player/Stream/Counted.antt =====
-- Streaming a show against reading it whole, and what the report counts.
use led_platform.Prelude.{
  Bool-cases, leb, ltb, max, u64, ◌&&◌, ◌==◌, ◌≢◌, ap, arith, inl, inr, refl, u64_max, zero, ◌<◌,
  ◌∙◌, ◌≡◌, ◌≤◌, List, Option, Result, [], err, length, none, ok, some, suc, ℕ, ◌+◌, ◌∷◌,
}
use led_platform.Recorder.Format.{ShowRecord}
use led_platform.Recorder.Format.Reader.{collect_all, ReadError}
use led_platform.Daemon.Output.Manager.{ProtocolOutput}
use led_platform.Player.Stream.{
  shown, frame_of, noted, on_frame, OutputError, late_by, ShowReader, stream_from, play_streaming,
  streamed, Pacing, StreamReport, Streaming, begun, round, report_of,
}
use led_platform.Player.Stream.Yields.{
  ends, fails, yields, Yields, collected, reader-Yields, collect_all-Yields, whole-Yields,
}
use led_platform.Recorder.Format.Total.{next_frame_takes}
use led_platform.Player.Stream.Handed.{rounds, handed_from, rounds-handed_from}

module _ {O : Type 0} (driver : ProtocolOutput O) (pacing : Pacing) (clock : ℕ → ℕ) where
  -- What playing some frames comes to, after which the reader ends or fails.
  abbrev pub played_then :
      ℕ → O → List ShowRecord → Option ReadError → O × Result ReadError StreamReport
  played_then pixel_count out rs none =
      let st = rounds driver pacing clock 1 (begun out) rs in
      (st.output, ok (report_of driver pacing clock pixel_count (suc (length rs)) st))
  played_then pixel_count out rs (some e) =
      ((rounds driver pacing clock 1 (begun out) rs).output, err e)

  -- The loop, where the reader yields some frames and then ends or fails.
  abbrev follows :
      ℕ → Streaming O → List ShowRecord → Option ReadError → Result ReadError ℕ × Streaming O
  follows k st rs none = (ok (k + length rs), rounds driver pacing clock k st rs)
  follows k st rs (some e) = (err e, rounds driver pacing clock k st rs)

  follows-yields :
      (k : ℕ) (st : Streaming O) (rec : ShowRecord) (rs : List ShowRecord)
      (ending : Option ReadError)
      → follows (suc k) (round driver pacing (clock k) st rec) rs ending
        ≡ follows k st (rec ∷ rs) ending
  follows-yields k st rec rs (some e) = refl
  follows-yields k st rec rs none =
      let e : suc k + length rs ≡ k + suc (length rs) = omega arith in rw e refl

  stream_from-follows :
      (fuel k : ℕ) (r : ShowReader) (st : Streaming O) (rs : List ShowRecord)
      (ending : Option ReadError)
      → length r.inner < fuel
      → Yields r rs ending
      → stream_from driver pacing clock fuel k r st ≡ some (follows k st rs ending)
  unfolding stream_from
  stream_from-follows zero k r st rs ending lt y = absurd (omega arith)
  stream_from-follows (suc fuel) k r st [] none lt (ends q) =
      let e : k + 0 ≡ k = omega arith in rw (q, stream_from) (rw e refl)
  stream_from-follows (suc fuel) k r st [] (some e) lt (fails q) = rw (q, stream_from) refl
  stream_from-follows (suc fuel) k r st (rec ∷ rs) ending lt (yields r' q y) =
      rw (q, stream_from)
        (stream_from-follows fuel (suc k) r' (round driver pacing (clock k) st rec) rs ending
            (omega (arith, next_frame_takes r r' rec q)) y
          ∙ ap some (follows-yields k st rec rs ending))

  streamed-follows :
      (n : ℕ) (out : O) (rs : List ShowRecord) (ending : Option ReadError)
      → streamed driver pacing clock n (some (follows 1 (begun out) rs ending))
        ≡ some (played_then n out rs ending)
  streamed-follows n out rs none =
      let e : 1 + length rs ≡ suc (length rs) = omega arith in rw e refl
  streamed-follows n out rs (some e) = refl

  play_streaming-Yields :
      (r : ShowReader) (out : O) (rs : List ShowRecord) (ending : Option ReadError)
      → Yields r rs ending
      → play_streaming driver pacing clock r out ≡ some (played_then r.pixel_count out rs ending)
  unfolding play_streaming
  play_streaming-Yields r out rs ending y =
      ap (streamed driver pacing clock r.pixel_count)
        (stream_from-follows (suc (length r.inner)) 1 r (begun out) rs ending (omega arith) y)
      ∙ streamed-follows r.pixel_count out rs ending

  played_then_handed :
      (n : ℕ) (out : O) (rs : List ShowRecord) (ending : Option ReadError)
      → (played_then n out rs ending).0 ≡ handed_from driver pacing clock 1 none 0 out rs
  played_then_handed n out rs none = rounds-handed_from driver pacing clock 1 (begun out) rs
  played_then_handed n out rs (some e) = rounds-handed_from driver pacing clock 1 (begun out) rs

  -- For every reader, output and clock, the reader yields some frames and then its end or an
  -- error, and streaming it plays these frames, one after the other, and comes to the report of
  -- all of them at the end, or else to the error. It hands the output each of these frames in its
  -- order, also before an error, but for those that, when it paces by the clock, are late by the
  -- longest gap between two frames so far or more, where there was a gap. Reading the file whole
  -- comes to the same frames, or to the same error.
  pub play_streaming-collect_all :
      (r : ShowReader) (out : O)
      → (rs : List ShowRecord) × (ending : Option ReadError) × Yields r rs ending
        × (play_streaming driver pacing clock r out
            ≡ some (played_then r.pixel_count out rs ending))
        × ((played_then r.pixel_count out rs ending).0
            ≡ handed_from driver pacing clock 1 none 0 out rs)
        × (collect_all r ≡ some (collected rs ending))
  play_streaming-collect_all r out =
      let (rs, ending, y) = reader-Yields r in
      (
        rs,
        ending,
        y,
        play_streaming-Yields r out rs ending y,
        played_then_handed r.pixel_count out rs ending,
        collect_all-Yields r rs ending y,
      )

  -- What `n` rounds count, while the counters do not overflow.
  abbrev pub Counts : ℕ → Streaming O → Type 0
  Counts n st =
      (st.played + st.failed ≤ n)
      × (n ≤ st.played + st.failed + st.frames_late)
      × (st.frames_late ≤ n)
      × (st.frames_late ≡ 0 → st.worst_late_ms ≡ 0)

  -- Between the two counts of a round.
  abbrev Between : ℕ → Streaming O → Type 0
  Between n st =
      (st.played + st.failed ≤ n)
      × (n ≤ st.played + st.failed + st.frames_late)
      × (st.frames_late ≤ suc n)
      × (st.frames_late ≡ 0 → st.worst_late_ms ≡ 0)

  shown-Counts :
      (n : ℕ) (st : Streaming O) (a : O × Option OutputError)
      → n < u64_max
      → Between n st
      → Counts (suc n) (shown driver st a)
  shown-Counts n st (out, none) lt (p, q, r, w) = (omega arith, omega arith, r, w)
  shown-Counts n st (out, some e) lt (p, q, r, w) = (omega arith, omega arith, r, w)

  late-Counts :
      (n late : ℕ) (st : Streaming O)
      → n < u64_max
      → Counts n st
      → late ≢ 0
      → let st' : Streaming O = record st {
        worst_late_ms = max st.worst_late_ms late;
        frames_late = u64 (st.frames_late + 1);
      } in
        Between n st' × Counts (suc n) st'
  late-Counts n late st lt (p, q, r, w) ne =
      let one_more : u64 (st.frames_late + 1) ≡ st.frames_late + 1 = omega arith in
      let counted : (u64 (st.frames_late + 1) ≡ 0) → (max st.worst_late_ms late ≡ 0) =
        λ z. absurd (omega arith) in
      ((p, omega arith, omega arith, counted), (omega arith, omega arith, omega arith, counted))

  on_frame-Counts :
      (n late : ℕ) (st : Streaming O) (rec : ShowRecord)
      → n < u64_max
      → Counts n st
      → Counts (suc n) (on_frame driver st late rec)
  unfolding on_frame
  on_frame-Counts n late st rec lt (p, q, r, w) = elim (Bool-cases (late == 0)) [
    | inl z ↦
        rw z
          (shown-Counts n st (driver.send_frame st.output (frame_of rec)) lt (p, q, omega arith, w))
    | inr late_is ↦
        let ne : late ≢ 0 = λ e. ground arith in
        let (mid, counts) = late-Counts n late st lt (p, q, r, w) ne in
        elim (Bool-cases (ltb 0 st.period_ms && leb st.period_ms late)) [
          | inl overtaken ↦ rw (late_is, overtaken) counts
          | inr sent ↦
              rw (late_is, sent)
                (shown-Counts n
                  (record st {
                    worst_late_ms = max st.worst_late_ms late;
                    frames_late = u64 (st.frames_late + 1);
                  })
                  (driver.send_frame st.output (frame_of rec)) lt mid)
        ]
  ]

  round-Counts :
      (n now : ℕ) (st : Streaming O) (rec : ShowRecord)
      → n < u64_max
      → Counts n st
      → Counts (suc n) (round driver pacing now st rec)
  unfolding round
  round-Counts n now st rec lt h =
      on_frame-Counts n (late_by pacing now rec.timestamp_ms) (noted driver st rec.timestamp_ms) rec
        lt h

  rounds-Counts :
      (n k : ℕ) (st : Streaming O) (rs : List ShowRecord)
      → n + length rs ≤ u64_max
      → Counts n st
      → Counts (n + length rs) (rounds driver pacing clock k st rs)
  rounds-Counts n k st [] le h = let e : n + 0 ≡ n = omega arith in rw e h
  rounds-Counts n k st (rec ∷ rs) le h =
      let e : n + suc (length rs) ≡ suc n + length rs = omega arith in
      rw e (
        rounds-Counts (suc n) (suc k) (round driver pacing (clock k) st rec) rs (omega arith)
          (round-Counts n (clock k) st rec (omega arith) h))

  -- A show that can be read to its end, of fewer than 2^64 frames, is played to its end: the
  -- report counts each frame as played or refused unless it was left out, no more frames are left
  -- out than were late, and where none was late the worst delay is 0.
  pub play_streaming-Counts :
      (r : ShowReader) (out : O) (rs : List ShowRecord)
      → collect_all r ≡ some (ok rs)
      → length rs ≤ u64_max
      → (out' : O) × (rep : StreamReport) × (play_streaming driver pacing clock r out
          ≡ some (out', ok rep))
        × (rep.frames_played + rep.frames_failed ≤ length rs)
        × (length rs ≤ rep.frames_played + rep.frames_failed + rep.frames_late)
        × (rep.frames_late ≤ length rs)
        × (rep.frames_late ≡ 0 → rep.worst_late_ms ≡ 0)
  play_streaming-Counts r out rs e le =
      let st = rounds driver pacing clock 1 (begun out) rs in
      let rep = report_of driver pacing clock r.pixel_count (suc (length rs)) st in
      let zero_all : 0 + length rs ≡ length rs = omega arith in
      let (p, q, l, w) =
        rounds-Counts 0 1 (begun out) rs (omega arith)
          (omega arith, omega arith, omega arith, λ z. refl) in
      (
        st.output,
        rep,
        play_streaming-Yields r out rs none (whole-Yields r rs e),
        omega arith,
        omega arith,
        omega arith,
        w,
      )
