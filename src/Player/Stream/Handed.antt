-- ===== src/Player/Stream/Handed.antt =====
-- Which frames streaming hands to the output.
use led_platform.Prelude.{
  Bool, Bool-cases, List, Option, [], ap, arith, false, inl, inr, leb, ltb, max, none, not, refl,
  saturating_add, some, suc, true, ℕ, ◌&&◌, ◌-◌, ◌==◌, ◌∙◌, ◌∷◌, ◌≡◌,
}
use led_platform.Recorder.Format.{ShowRecord}
use led_platform.Hal.Output.{OutputError}
use led_platform.Daemon.Output.Manager.{ProtocolOutput}
use led_platform.Player.Playback.{frame_of}
use led_platform.Player.Stream.{
  Pacing, absolute, at_once, Streaming, round, on_frame, shown, tardy, noted, late_by, period_after,
}

-- The longest gap so far.
abbrev longest : Option ℕ → ℕ → ℕ → ℕ
longest none gap timestamp_ms = gap
longest (some before) gap timestamp_ms = max (timestamp_ms - before) gap

-- Late by the longest gap or more, where there was one; playing at once nothing is.
abbrev overtaken : Pacing → ℕ → ℕ → ℕ → Bool
overtaken at_once now timestamp_ms gap = false
overtaken (absolute epoch_ms) now timestamp_ms gap =
    ltb 0 gap && leb gap (now - saturating_add epoch_ms timestamp_ms)

module _ {O : Type 0} (driver : ProtocolOutput O) (pacing : Pacing) (clock : ℕ → ℕ) where
  -- The rounds of frames that are all there.
  abbrev pub rounds : ℕ → Streaming O → List ShowRecord → Streaming O
  rounds k st [] = st
  rounds k st (rec ∷ rs) = rounds (suc k) (round driver pacing (clock k) st rec) rs

  abbrev handed_one : Bool → O → ShowRecord → O
  handed_one true out rec = out
  handed_one false out rec = (driver.send_frame out (frame_of rec)).0

  -- The output after some frames: the number of the first reading of the clock, the time of the
  -- frame before, and the longest gap before it.
  abbrev pub handed_from : ℕ → Option ℕ → ℕ → O → List ShowRecord → O
  handed_from k before gap out [] = out
  handed_from k before gap out (rec ∷ rs) =
      let gap' = longest before gap rec.timestamp_ms in
      handed_from (suc k) (some rec.timestamp_ms) gap'
        (handed_one (overtaken pacing (clock k) rec.timestamp_ms gap') out rec) rs

  -- The variables of the loop that decide what is handed over.
  record Hands (st : Streaming O) (out : O) (before : Option ℕ) (longest_gap : ℕ) : Type 0 where
    output : st.output ≡ out
    prev : st.prev_ts ≡ before
    gap : st.period_ms ≡ longest_gap

  shown-Hands :
      (st : Streaming O) (a : O × Option OutputError)
      → Hands (shown driver st a) a.0 st.prev_ts st.period_ms
  shown-Hands st (out, none) = record { output = refl; prev = refl; gap = refl }
  shown-Hands st (out, some e) = record { output = refl; prev = refl; gap = refl }

  tardy-Hands :
      (st : Streaming O) (late : ℕ) → Hands (tardy driver st late) st.output st.prev_ts st.period_ms
  tardy-Hands st late = elim (Bool-cases (late == 0)) [
    | inl y ↦ rw y (record { output = refl; prev = refl; gap = refl })
    | inr n ↦ rw n (record { output = refl; prev = refl; gap = refl })
  ]

  on_frame-Hands :
      (st : Streaming O) (late : ℕ) (rec : ShowRecord)
      → Hands
          (on_frame driver st late rec)
          (handed_one
            (not (late == 0) && ltb 0 st.period_ms && leb st.period_ms late)
            st.output
            rec)
          st.prev_ts
          st.period_ms
  unfolding on_frame
  on_frame-Hands st late rec =
      let t = tardy-Hands st late in
      elim (Bool-cases (not (late == 0) && ltb 0 st.period_ms && leb st.period_ms late)) [
        | inl y ↦ rw (y, on_frame) t
        | inr n ↦
            let h =
              shown-Hands (tardy driver st late) (driver.send_frame st.output (frame_of rec)) in
            rw (n, on_frame)
              (record { output = h.output; prev = h.prev ∙ t.prev; gap = h.gap ∙ t.gap })
      ]

  late-overtaken :
      (p : Pacing) (now timestamp_ms gap : ℕ)
      → let late = late_by p now timestamp_ms in
        (not (late == 0) && ltb 0 gap && leb gap late) ≡ overtaken p now timestamp_ms gap
  late-overtaken at_once now timestamp_ms gap = refl
  late-overtaken (absolute epoch_ms) now timestamp_ms gap = ground arith

  longest-period_after :
      (before : Option ℕ) (timestamp_ms gap : ℕ)
      → period_after before timestamp_ms gap ≡ longest before gap timestamp_ms
  longest-period_after none timestamp_ms gap = refl
  longest-period_after (some t) timestamp_ms gap = refl

  round-Hands :
      (now : ℕ) (st : Streaming O) (rec : ShowRecord)
      → let gap = longest st.prev_ts st.period_ms rec.timestamp_ms in
        Hands
          (round driver pacing now st rec)
          (handed_one (overtaken pacing now rec.timestamp_ms gap) st.output rec)
          (some rec.timestamp_ms)
          gap
  unfolding round
  round-Hands now st rec =
      let noted_st = noted driver st rec.timestamp_ms in
      let late = late_by pacing now rec.timestamp_ms in
      let h = on_frame-Hands noted_st late rec in
      let same = longest-period_after st.prev_ts rec.timestamp_ms st.period_ms in
      record {
        output =
            h.output
            ∙ ap (λ (b : Bool). handed_one b st.output rec)
                (late-overtaken pacing now rec.timestamp_ms noted_st.period_ms)
            ∙ ap (λ (g : ℕ). handed_one (overtaken pacing now rec.timestamp_ms g) st.output rec)
                same;
        prev = h.prev;
        gap = h.gap ∙ same;
      }

  pub rounds-handed_from :
      (k : ℕ) (st : Streaming O) (rs : List ShowRecord)
      → (rounds k st rs).output ≡ handed_from k st.prev_ts st.period_ms st.output rs
  rounds-handed_from k st [] = refl
  rounds-handed_from k st (rec ∷ rs) =
      let st' = round driver pacing (clock k) st rec in
      let h = round-Hands (clock k) st rec in
      let gap' = longest st.prev_ts st.period_ms rec.timestamp_ms in
      let out' = handed_one (overtaken pacing (clock k) rec.timestamp_ms gap') st.output rec in
      rounds-handed_from (suc k) st' rs
      ∙ ap (λ (o : O). handed_from (suc k) st'.prev_ts st'.period_ms o rs) h.output
      ∙ ap (λ (b : Option ℕ). handed_from (suc k) b st'.period_ms out' rs) h.prev
      ∙ ap (λ (g : ℕ). handed_from (suc k) (some rec.timestamp_ms) g out' rs) h.gap
