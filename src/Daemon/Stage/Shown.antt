-- ===== src/Daemon/Stage/Shown.antt =====
-- Which frame each tick hands to the output.
use led_platform.Prelude.{
  ◌⊎◌, Bool, Bool-cases, List, Option, [], false, inl, inr, none, some, true, ℕ, ◌∷◌, ◌≡◌, refl,
  subst, sym,
}
use led_platform.Runtime.Types.{
  State, idle, loaded, ready, playing, paused, stopped, finished, error,
}
use led_platform.Daemon.Output.Manager.{LogicalFrame}
use led_platform.Daemon.Stage.{
  resend, sent, record_frame, shows, unreadable, no_frames, delivered, on_lookup, StageTick, due,
  held, Stage, beat, keep_alive, opened, on_tick, Lookup,
}

module _ {S O : Type 0} (frame_at : S → ℕ → S × Lookup) (send : O → LogicalFrame → O × Bool) where
  abbrev frame_of : Lookup → Option LogicalFrame
  frame_of (shows f) = some f
  frame_of _ = none

  -- The source after a tick, and the frame that it shows at it: it is asked only while playing.
  abbrev look : State → S → ℕ → S × Option LogicalFrame
  look playing source position_ms =
      ((frame_at source position_ms).0, frame_of (frame_at source position_ms).1)
  look _ source position_ms = (source, none)

  -- The frame that was shown last.
  abbrev latest : Option LogicalFrame → Option LogicalFrame → Option LogicalFrame
  latest (some f) before = some f
  latest none before = before

  -- What a tick does to the output, where `shown` is shown at it and `before` was shown last before.
  abbrev Hands : O → O → Option LogicalFrame → Option LogicalFrame → Type 0
  Hands out out' (some f) before = out' ≡ (send out f).0
  Hands out out' none none = out' ≡ out
  Hands out out' none (some f) = (out' ≡ out) ⊎ (out' ≡ (send out f).0)

  abbrev pub AllShown : Stage S O → S → Option LogicalFrame → List (State × ℕ × ℕ) → Type 0
  AllShown st source before [] = Unit {0}
  AllShown st source before ((state, position_ms, now) ∷ rest) =
      let st' = (on_tick frame_at send st state position_ms now).stage in
      let (source', shown) = look state source position_ms in
      Hands st.output st'.output shown before × AllShown st' source' (latest shown before) rest

  -- The stage after a tick: its output, its source, and what it recorded.
  abbrev Steps : Stage S O → Stage S O → S × Option LogicalFrame → Type 0
  Steps st st' (source, shown) =
      Hands st.output st'.output shown st.last_valid
      × (st'.source ≡ source)
      × (st'.last_valid ≡ latest shown st.last_valid)

  delivered-Steps :
      (st : Stage S O) (f : LogicalFrame) (now : ℕ) (t : StageTick) (r : O × Bool)
      → let st' = (delivered frame_at send st f now t r).stage in
        (st'.output ≡ r.0) × (st'.source ≡ st.source) × (st'.last_valid ≡ st.last_valid)
  delivered-Steps st f now t (out, true) = (refl, refl, refl)
  delivered-Steps st f now t (out, false) = (refl, refl, refl)

  resend-Steps :
      (st : Stage S O) (now : ℕ) (o : Option LogicalFrame)
      → st.last_valid ≡ o
      → Steps st (resend frame_at send st now o).stage (st.source, none)
  resend-Steps st now none e = rw e (refl, refl, refl)
  resend-Steps st now (some f) e =
      let (out, source, valid) = delivered-Steps st f now held (send st.output f) in
      (
        subst
            (λ (o : Option LogicalFrame).
              Hands st.output (resend frame_at send st now (some f)).stage.output none o)
            (sym e) (inr out),
        source,
        valid,
      )

  none-Hands : (out : O) (o : Option LogicalFrame) → Hands out out none o
  none-Hands out none = refl
  none-Hands out (some f) = inl refl

  keep_alive-Steps :
      (st : Stage S O) (now : ℕ)
      → Steps st (keep_alive frame_at send st now).stage (st.source, none)
  unfolding keep_alive beat
  keep_alive-Steps st now = elim (Bool-cases (due frame_at send st.last_sent_ms now)) [
    | inl y ↦ rw (y, keep_alive, beat) (resend-Steps st now st.last_valid refl)
    | inr n ↦ rw (n, keep_alive) (none-Hands st.output st.last_valid, refl, refl)
  ]

  on_lookup-Steps :
      (st : Stage S O) (position_ms now : ℕ) (p : S × Lookup)
      → Steps st (on_lookup frame_at send st position_ms now p).stage (p.0, frame_of p.1)
  on_lookup-Steps st position_ms now (source, shows f) =
      delivered-Steps (record_frame frame_at send (record st { source = source }) f) f now
        (sent position_ms) (send st.output f)
  on_lookup-Steps st position_ms now (source, no_frames) =
      keep_alive-Steps (record st { source = source }) now
  on_lookup-Steps st position_ms now (source, unreadable) =
      (none-Hands st.output st.last_valid, refl, refl)

  on_tick-Steps :
      (st : Stage S O) (state : State) (position_ms now : ℕ)
      → Steps st
          (on_tick frame_at send st state position_ms now).stage
          (look state st.source position_ms)
  unfolding on_tick
  on_tick-Steps st idle position_ms now = keep_alive-Steps st now
  on_tick-Steps st loaded position_ms now = keep_alive-Steps st now
  on_tick-Steps st ready position_ms now = keep_alive-Steps st now
  on_tick-Steps st playing position_ms now =
      on_lookup-Steps st position_ms now (frame_at st.source position_ms)
  on_tick-Steps st paused position_ms now = keep_alive-Steps st now
  on_tick-Steps st stopped position_ms now = keep_alive-Steps st now
  on_tick-Steps st finished position_ms now = keep_alive-Steps st now
  on_tick-Steps st error position_ms now = keep_alive-Steps st now

  ticks-Steps :
      (st : Stage S O) (run : List (State × ℕ × ℕ)) → AllShown st st.source st.last_valid run
  ticks-Steps st [] = tt
  ticks-Steps st ((state, position_ms, now) ∷ rest) =
      let st' = (on_tick frame_at send st state position_ms now).stage in
      let (hands, source, valid) = on_tick-Steps st state position_ms now in
      (
        hands,
        subst
            (λ (x : S).
              AllShown st' x (latest (look state st.source position_ms).1 st.last_valid) rest)
            source
            (subst (λ (o : Option LogicalFrame). AllShown st' st'.source o rest) valid
              (ticks-Steps st' rest)),
      )

  -- From an opened stage, in every run of the loop, whatever the output answers: a tick that plays
  -- a frame of the source hands the output that frame; every other tick leaves the output as it
  -- was, or, where the source showed a frame before, hands it again the one that was shown last.
  -- The keep-alive makes up no frame.
  pub ticks-AllShown :
      (source : S) (output : O) (run : List (State × ℕ × ℕ))
      → AllShown (opened frame_at send source output) source none run
  unfolding opened
  ticks-AllShown source output run = ticks-Steps (opened frame_at send source output) run
