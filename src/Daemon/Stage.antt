-- ===== src/Daemon/Stage.antt =====
-- crates/led-daemon-bin/src/stage.rs: `Stage::on_tick`, with the `Heartbeat` of crates/led-hal. The frame
-- source and the output are the types `S` and `O`; `send` is `OutputManager::send`, which is also what
-- `beat` calls through the trait, and gives the output after the call and whether it took the frame.
pub mod Alive
pub mod Shown
mod Tests
use led_platform.Prelude.{
  Bool, List, Option, [], false, if◌then◌else◌, leb, none, some, true, ℕ, ◌-◌, ◌∷◌,
}
use led_platform.Runtime.Types.{State, playing}
use led_platform.Daemon.Output.Manager.{LogicalFrame}

-- `HEARTBEAT_MS`.
abbrev pub heartbeat_ms : ℕ
heartbeat_ms = 800

pub data StageTick : Type 0 where
  sent : ℕ → StageTick
  held quiet failed : StageTick

-- What `FrameSource::frame_at` comes to.
pub data Lookup : Type 0 where
  shows : LogicalFrame → Lookup
  no_frames unreadable : Lookup

abbrev pub is_playing : State → Bool
is_playing playing = true
is_playing _ = false

pub record Stage (S O : Type 0) : Type 0 where
  pub source : S
  pub output : O
  pub last_valid : Option LogicalFrame
  pub last_sent_ms : Option ℕ

pub record Ticked (S O : Type 0) : Type 0 where
  pub stage : Stage S O
  pub tick : StageTick

module _ {S O : Type 0} (frame_at : S → ℕ → S × Lookup) (send : O → LogicalFrame → O × Bool) where
  abbrev pub rests : Stage S O → StageTick → Ticked S O
  rests st t = record { stage = st; tick = t }

  -- The result of the output; only a success counts as sent.
  abbrev pub delivered : Stage S O → LogicalFrame → ℕ → StageTick → O × Bool → Ticked S O
  delivered st f now t (out, true) = record {
    stage = record st { output = out; last_sent_ms = some now };
    tick = t;
  }
  delivered st f now t (out, false) = record { stage = record st { output = out }; tick = failed }

  -- `Heartbeat::record`.
  abbrev pub record_frame : Stage S O → LogicalFrame → Stage S O
  record_frame st f = record st { last_valid = some f }

  -- The last valid frame once more, or nothing.
  abbrev pub resend : Stage S O → ℕ → Option LogicalFrame → Ticked S O
  resend st now none = rests st quiet
  resend st now (some f) = delivered st f now held (send st.output f)

  -- `Heartbeat::beat`.
  unfoldable pub beat : Stage S O → ℕ → Ticked S O
  beat st now = resend st now st.last_valid

  abbrev pub due : Option ℕ → ℕ → Bool
  due none now = false
  due (some t) now = leb heartbeat_ms (now - t)

  unfoldable pub keep_alive : Stage S O → ℕ → Ticked S O
  unfolding beat
  keep_alive st now = if due st.last_sent_ms now then beat st now else rests st quiet

  -- The show's frame is recorded before it is sent.
  abbrev pub on_lookup : Stage S O → ℕ → ℕ → S × Lookup → Ticked S O
  on_lookup st position_ms now (source, shows f) =
      let st' : Stage S O = record_frame (record st { source = source }) f in
      delivered st' f now (sent position_ms) (send st'.output f)
  on_lookup st position_ms now (source, no_frames) = keep_alive (record st { source = source }) now
  on_lookup st position_ms now (source, unreadable) = rests (record st { source = source }) failed

  unfoldable pub on_tick : Stage S O → State → ℕ → ℕ → Ticked S O
  unfolding keep_alive
  on_tick st state position_ms now =
      if is_playing state
      then on_lookup st position_ms now (frame_at st.source position_ms)
      else keep_alive st now

  unfoldable pub opened : S → O → Stage S O
  opened source output = record {
    source = source;
    output = output;
    last_valid = none;
    last_sent_ms = none;
  }

  -- The ticks of the loop: the state, the position and the time of each.
  unfoldable pub ticks : Stage S O → List (State × ℕ × ℕ) → Stage S O
  unfolding on_tick
  ticks st [] = st
  ticks st ((state, position_ms, now) ∷ rest) = ticks (on_tick st state position_ms now).stage rest
