-- ===== src/Player/Playback.antt =====
-- crates/led-player/src/lib.rs: `play_instrumented`. `pause f gap` stands for
-- the sleep between two frames at speed `f`, which is floating-point arithmetic; the metrics are left
-- out. A recorded frame that is played is handed over with its time.
use led_platform.Prelude.{
  ap, suc, ◌<◌, ◌∙◌, arith, length, refl, u64_max, ◌≡◌, ◌≤◌, Bool, List, Option, [], get_elem?,
  if◌then◌else◌, ltb, none, some, u64, ℕ, ◌&&◌, ◌++◌, ◌+◌, ◌-◌, ◌∷◌,
}
use led_platform.Recorder.Format.{ShowRecord}
use led_platform.Recorder.Replay.{from_records}
use led_platform.Hal.Output.{OutputError}
use led_platform.Daemon.Output.Manager.{LogicalFrame, ProtocolOutput}

pub data Speed (F : Type 0) : Type 0 where
  factor : F → Speed F
  max_speed : Speed F

pub record PlaybackReport : Type 0 where
  pub frames_played : ℕ
  pub frames_failed : ℕ
  pub duration_ms : ℕ
  pub pixel_count : ℕ
  pub manifest_hash : ℕ

abbrev pub last_of : List ShowRecord → Option ShowRecord
last_of [] = none
last_of (r ∷ []) = some r
last_of (r ∷ s ∷ rs) = last_of (s ∷ rs)

abbrev pub span_of : Option ShowRecord → Option ShowRecord → ℕ
span_of (some a) (some b) = b.timestamp_ms - a.timestamp_ms
span_of _ _ = 0

unfoldable pub duration_of : List ShowRecord → ℕ
duration_of records = span_of (get_elem? records 0) (last_of records)

abbrev pub frame_of : ShowRecord → LogicalFrame
frame_of r = record { pixels = r.pixels; timestamp_ms = r.timestamp_ms }

-- The output, the two counts and the sleeps in order.
pub record Playing (O : Type 0) : Type 0 where
  pub output : O
  pub played : ℕ
  pub failed : ℕ
  pub pauses : List ℕ

module _ {O F : Type 0} (driver : ProtocolOutput O) (micros : F → ℕ → ℕ)
    (is_positive : F → Bool) where
  -- `gap > 0 && f > 0.0`.
  abbrev pub slept : Speed F → Option ℕ → ShowRecord → List ℕ
  slept (factor f) (some prev) r =
      let gap = r.timestamp_ms - prev in
      if ltb 0 gap && is_positive f then micros f gap ∷ [] else []
  slept _ _ r = []

  abbrev pub counts : Playing O → List ℕ → O × Option OutputError → Playing O
  counts p pauses (out, none) = record {
    output = out;
    played = u64 (p.played + 1);
    failed = p.failed;
    pauses = p.pauses ++ pauses;
  }
  counts p pauses (out, some e) = record {
    output = out;
    played = p.played;
    failed = u64 (p.failed + 1);
    pauses = p.pauses ++ pauses;
  }

  unfoldable pub play_from : Speed F → Option ℕ → List ShowRecord → Playing O → Playing O
  play_from speed prev [] p = p
  play_from speed prev (r ∷ rs) p =
      play_from speed (some r.timestamp_ms) rs
        (counts p (slept speed prev r) (driver.send_frame p.output (frame_of r)))

  unfoldable pub play_instrumented : List ShowRecord → Speed F → O → Playing O × PlaybackReport
  unfolding play_from duration_of from_records
  play_instrumented records speed out =
      let manifest = from_records records in
      let p =
        play_from speed none records
          (record { output = out; played = 0; failed = 0; pauses = [] }) in
      (
        p,
        record {
          frames_played = p.played;
          frames_failed = p.failed;
          duration_ms = duration_of records;
          pixel_count = manifest.pixel_count;
          manifest_hash = manifest.aggregate_hash;
        },
      )

  -- The output after a show, every frame handed over in its turn.
  abbrev pub after_all : O → List ShowRecord → O
  after_all out [] = out
  after_all out (r ∷ rs) = after_all (driver.send_frame out (frame_of r)).0 rs

  counts_one :
      (p : Playing O) (ps : List ℕ) (a : O × Option OutputError)
      → p.played + p.failed < u64_max
      → ((counts p ps a).output ≡ a.0)
        × ((counts p ps a).played + (counts p ps a).failed ≡ suc (p.played + p.failed))
  counts_one p ps (out, none) lt = (refl, omega arith)
  counts_one p ps (out, some e) lt = (refl, omega arith)

  play_from-after_all :
      (speed : Speed F) (prev : Option ℕ) (rs : List ShowRecord) (p : Playing O)
      → p.played + p.failed + length rs ≤ u64_max
      → let q = play_from speed prev rs p in
        (q.output ≡ after_all p.output rs) × (q.played + q.failed ≡ p.played + p.failed + length rs)
  unfolding play_from
  play_from-after_all speed prev [] p le = (refl, omega arith)
  play_from-after_all speed prev (r ∷ rs) p le =
      let a = driver.send_frame p.output (frame_of r) in
      let p' = counts p (slept speed prev r) a in
      let (same, one) = counts_one p (slept speed prev r) a (omega arith) in
      let (out, all) = play_from-after_all speed (some r.timestamp_ms) rs p' (omega arith) in
      (out ∙ ap (λ o. after_all o rs) same, omega arith)

  -- At any speed, `play` hands the output every frame of the recording in its order, with its
  -- pixels and its time, whatever the output answers; and for fewer than 2^64 frames the report
  -- counts each of them once, as played or as failed.
  pub play_instrumented-after_all :
      (records : List ShowRecord) (speed : Speed F) (out : O)
      → length records ≤ u64_max
      → let (p, rep) = play_instrumented records speed out in
        (p.output ≡ after_all out records)
        × (rep.frames_played + rep.frames_failed ≡ length records)
  unfolding play_instrumented
  play_instrumented-after_all records speed out le =
      let (same, all) =
        play_from-after_all speed none records
          (record { output = out; played = 0; failed = 0; pauses = [] }) (omega arith) in
      (same, omega arith)
