-- ===== src/Daemon/Stage/Alive.antt =====
-- The keep-alive: how long the stage is silent.
use led_platform.Prelude.{
  ◌⊎◌, Option, subst, sym, Bool, Bool-cases, List, [], ap, arith, false, inl, inr, leb, none, refl,
  some, true, ℕ, ◌+◌, ◌-◌, ◌<◌, ◌∙◌, ◌∷◌, ◌≡◌, ◌≢◌,
}
use led_platform.Runtime.Types.{State, playing}
use led_platform.Daemon.Output.Manager.{LogicalFrame}
use led_platform.Daemon.Stage.{
  resend, due, shows, unreadable, no_frames, held, sent, beat, delivered, record_frame, on_lookup,
  StageTick, shows, keep_alive, heartbeat_ms, unreadable, Stage, is_playing, ticks, on_tick, Lookup,
}

module _ {S O : Type 0} (frame_at : S → ℕ → S × Lookup) (send : O → LogicalFrame → O × Bool) where
  -- A stage that once sent, at the time `t`, as it remembers it.
  abbrev HasSent : Stage S O → ℕ → Type 0
  HasSent st t = (f : LogicalFrame) × (st.last_valid ≡ some f) × (st.last_sent_ms ≡ some t)

  -- One tick, where `t` is the time of the last sending before it: either the output is handed a
  -- frame, or it is left as it was and the last sending is near. `after` is of the ticks after it,
  -- for the time of the last sending then.
  abbrev Sends : O → O → ℕ → ℕ → (ℕ → Type 0) → Type 0
  Sends out out' t now after =
      ((f : LogicalFrame) × (out' ≡ (send out f).0) × after now)
      ⊎ ((out' ≡ out) × (now < t + 800) × after t)

  abbrev pub AllAlive : Stage S O → ℕ → List (State × ℕ × ℕ) → Type 0
  AllAlive st t [] = Unit {0}
  AllAlive st t ((state, position_ms, now) ∷ rest) =
      let st' = (on_tick frame_at send st state position_ms now).stage in
      Sends st.output st'.output t now (λ t'. AllAlive st' t' rest)

  module _ (takes : (out : O) (f : LogicalFrame) → (send out f).1 ≡ true)
      (reads : (s : S) (position_ms : ℕ) → (frame_at s position_ms).1 ≢ unreadable) where
    -- Between a stage and the one after a tick.
    abbrev Tick : Stage S O → Stage S O → ℕ → ℕ → Type 0
    Tick st st' t now = Sends st.output st'.output t now (HasSent st')

    delivered-Tick :
        (st : Stage S O) (f : LogicalFrame) (t now : ℕ) (k : StageTick) (r : O × Bool)
        → r ≡ send st.output f
        → r.1 ≡ true
        → st.last_valid ≡ some f
        → Tick st (delivered frame_at send st f now k r).stage t now
    delivered-Tick st f t now k (out, true) same e v =
        inl (f, ap (λ (p : O × Bool). p.0) same, (f, v, refl))
    delivered-Tick st f t now k (out, false) same e v = absurd (ground arith)

    beat-Tick :
        (st : Stage S O) (t now : ℕ)
        → HasSent st t
        → Tick st (beat frame_at send st now).stage t now
    unfolding beat
    beat-Tick st t now (f, v, l) =
        subst (λ (o : Option LogicalFrame). Tick st (resend frame_at send st now o).stage t now)
          (sym v) (delivered-Tick st f t now held (send st.output f) refl (takes st.output f) v)

    keep_alive-Tick :
        (st : Stage S O) (t now : ℕ)
        → HasSent st t
        → Tick st (keep_alive frame_at send st now).stage t now
    unfolding keep_alive
    keep_alive-Tick st t now (f, v, l) = elim (Bool-cases (due frame_at send st.last_sent_ms now)) [
      | inl y ↦ rw (y, keep_alive) (beat-Tick st t now (f, v, l))
      | inr n ↦
          let soon : leb heartbeat_ms (now - t) ≡ false = rw l at n in
          rw (n, keep_alive) (inr (refl, ground arith, (f, v, l)))
    ]

    on_lookup-Tick :
        (st : Stage S O) (position_ms t now : ℕ) (p : S × Lookup)
        → HasSent st t
        → p.1 ≢ unreadable
        → Tick st (on_lookup frame_at send st position_ms now p).stage t now
    on_lookup-Tick st position_ms t now (source, shows f) h fine =
        delivered-Tick (record_frame frame_at send (record st { source = source }) f) f t now
          (sent position_ms) (send st.output f) refl (takes st.output f) refl
    on_lookup-Tick st position_ms t now (source, no_frames) h fine =
        keep_alive-Tick (record st { source = source }) t now h
    on_lookup-Tick st position_ms t now (source, unreadable) h fine = absurd (fine refl)

    on_tick-Tick :
        (st : Stage S O) (state : State) (position_ms t now : ℕ)
        → HasSent st t
        → Tick st (on_tick frame_at send st state position_ms now).stage t now
    unfolding on_tick
    on_tick-Tick st state position_ms t now h = elim (Bool-cases (is_playing state)) [
      | inl y ↦
          rw (y, on_tick)
            (on_lookup-Tick st position_ms t now (frame_at st.source position_ms) h
              (reads st.source position_ms))
      | inr n ↦ rw (n, on_tick) (keep_alive-Tick st t now h)
    ]

    AllAlive-HasSent :
        (st : Stage S O) (t : ℕ) (run : List (State × ℕ × ℕ)) → HasSent st t → AllAlive st t run
    AllAlive-HasSent st t [] h = tt
    AllAlive-HasSent st t ((state, position_ms, now) ∷ rest) h =
        let st' = (on_tick frame_at send st state position_ms now).stage in
        elim (on_tick-Tick st state position_ms t now h) [
          | inl (f, e, h') ↦ inl (f, e, AllAlive-HasSent st' now rest h')
          | inr (e, near, h') ↦ inr (e, near, AllAlive-HasSent st' t rest h')
        ]

    on_tick-HasSent :
        (st : Stage S O) (f : LogicalFrame) (s : S) (position_ms t : ℕ)
        → frame_at st.source position_ms ≡ (s, shows f)
        → HasSent (on_tick frame_at send st playing position_ms t).stage t
    unfolding on_tick
    on_tick-HasSent st f s position_ms t e =
        rw (e, on_tick)
          (elim (delivered-Tick (record_frame frame_at send (record st { source = s }) f) f t t
            (sent position_ms) (send st.output f) refl (takes st.output f) refl) [
              | inl (g, same, h) ↦ h
              | inr (same, near, h) ↦ h
            ])

    -- On an output that takes every frame and a source that can be read, after a tick at the time
    -- `t` that plays a frame of the source, in every run of the loop, in whatever states, at
    -- whatever positions and times, every tick either hands the output a frame, or leaves the
    -- output as it was less than 800 ms after the last tick that handed it one.
    pub ticks-AllAlive :
        (st : Stage S O) (f : LogicalFrame) (s : S) (position_ms t : ℕ) (run : List (State × ℕ × ℕ))
        → frame_at st.source position_ms ≡ (s, shows f)
        → AllAlive (on_tick frame_at send st playing position_ms t).stage t run
    ticks-AllAlive st f s position_ms t run e =
        AllAlive-HasSent (on_tick frame_at send st playing position_ms t).stage t run
          (on_tick-HasSent st f s position_ms t e)

  abbrev pub AllWaiting : List (State × ℕ × ℕ) → Type 0
  AllWaiting [] = Unit {0}
  AllWaiting ((state, position_ms, now) ∷ rest) = (is_playing state ≡ false) × AllWaiting rest

  on_tick-waits :
      (st : Stage S O) (state : State) (position_ms now : ℕ)
      → is_playing state ≡ false
      → due frame_at send st.last_sent_ms now ≡ false
      → (on_tick frame_at send st state position_ms now).stage ≡ st
  unfolding on_tick keep_alive
  on_tick-waits st state position_ms now p e = rw (p, e, on_tick, keep_alive) refl

  -- A stage that never sent does not begin to where nothing plays.
  ticks-never_sent :
      (st : Stage S O) (run : List (State × ℕ × ℕ))
      → st.last_sent_ms ≡ none
      → AllWaiting run
      → ticks frame_at send st run ≡ st
  unfolding ticks
  ticks-never_sent st [] e w = refl
  ticks-never_sent st ((state, position_ms, now) ∷ rest) e (p, w) =
      let never : due frame_at send st.last_sent_ms now ≡ false =
        ap (λ (o : Option ℕ). due frame_at send o now) e in
      ap (λ (x : Stage S O). ticks frame_at send x rest)
        (on_tick-waits st state position_ms now p never)
      ∙ ticks-never_sent st rest e w

  on_tick-refused :
      (st : Stage S O) (f : LogicalFrame) (s : S) (out : O) (position_ms now : ℕ)
      → frame_at st.source position_ms ≡ (s, shows f)
      → send st.output f ≡ (out, false)
      → (on_tick frame_at send st playing position_ms now).stage
        ≡ record st { source = s; output = out; last_valid = some f }
  unfolding on_tick
  on_tick-refused st f s out position_ms now e r = rw (e, on_tick) (rw r refl)

  -- If nothing was sent yet, the source shows a frame and the output refuses it, then the frame is
  -- recorded as the last valid one, but while nothing plays no later tick changes the stage: the
  -- keep-alive does not resend it.
  pub ticks-after_refusal :
      (st : Stage S O) (f : LogicalFrame) (s : S) (out : O) (position_ms now : ℕ)
      (run : List (State × ℕ × ℕ))
      → st.last_sent_ms ≡ none
      → frame_at st.source position_ms ≡ (s, shows f)
      → send st.output f ≡ (out, false)
      → AllWaiting run
      → ticks frame_at send (on_tick frame_at send st playing position_ms now).stage run
        ≡ record st { source = s; output = out; last_valid = some f }
  ticks-after_refusal st f s out position_ms now run n e r w =
      ap (λ (x : Stage S O). ticks frame_at send x run)
        (on_tick-refused st f s out position_ms now e r)
      ∙ ticks-never_sent (record st { source = s; output = out; last_valid = some f }) run n w
