-- ===== src/Daemon/Output/Manager/Calls.antt =====
-- The calls on an `OutputManager`, in any order.
use led_platform.Prelude.{List, [], suc, ℕ, ◌∷◌}
use led_platform.Daemon.Output.Manager.{
  LogicalFrame, ProtocolOutput, OutputManager, blackout_accionar, blackout_levantar,
}
use led_platform.Daemon.Output.Manager.Send.{send}

pub data Call : Type 0 where
  frames : LogicalFrame → Call
  acciona levanta : Call

module _ {A F O : Type 0} (output : ProtocolOutput O) where
  unfoldable pub after_call : OutputManager A F O → Call → OutputManager A F O
  unfolding send blackout_accionar blackout_levantar
  after_call m (frames f) = (send output m f).0
  after_call m acciona = (blackout_accionar m).0
  after_call m levanta = (blackout_levantar m).0

  unfoldable pub after_calls : OutputManager A F O → List Call → OutputManager A F O
  unfolding after_call
  after_calls m [] = m
  after_calls m (c ∷ cs) = after_calls (after_call m c) cs

-- How many of the calls are frames.
abbrev pub frame_count : List Call → ℕ
frame_count [] = 0
frame_count (frames f ∷ cs) = suc (frame_count cs)
frame_count (acciona ∷ cs) = frame_count cs
frame_count (levanta ∷ cs) = frame_count cs
