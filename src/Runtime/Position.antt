-- ===== src/Runtime/Position.antt =====
-- Where the show stands: the position is derived from the instant of `play`, never accumulated.
use led_platform.Prelude.{
  ℕ, ◌-◌, ◌≤◌, ◌≡◌, Bool, true, false, some, min, arith, saturating_add, u64_max,
}
use led_platform.Runtime.Types.{
  paused, ShowDescriptor, Command, load, unload, play, stop, seek, tick,
}
use led_platform.Runtime.Machine.{ShowRuntime, apply, is_playing}
use led_platform.Runtime.Invariant.{IsCoherent, duration}

-- The commands that may set the position back.
abbrev pub rewinds : Command → Bool
rewinds (load d) = true
rewinds unload = true
rewinds stop = true
rewinds (seek to_ms) = true
rewinds _ = false

-- From a coherent run time whose duration is a `u64`, no command but `load`, `unload`, `stop` and
-- `seek` sets the position back.
position_mono :
    (rt : ShowRuntime) (cmd : Command) (now : ℕ)
    → IsCoherent rt
    → duration rt.show ≤ u64_max
    → rewinds cmd ≡ false
    → rt.position_ms ≤ (apply rt cmd now).0.position_ms
unfolding apply
position_mono rt cmd now h w r = ground arith

-- If the show still plays after a tick at `t₁`, a tick at `t₂`, not before `t₁`, gives the same
-- run time and outcome as if the first tick had not been: the position does not depend on how
-- often the loop ticks.
tick-tick :
    (rt : ShowRuntime) (t₁ t₂ : ℕ)
    → t₁ ≤ t₂
    → is_playing (apply rt tick t₁).0.state ≡ true
    → apply (apply rt tick t₁).0 tick t₂ ≡ apply rt tick t₂
unfolding apply
tick-tick rt t₁ t₂ le p = ground arith

-- After `play` from `Paused` at `t₁`, not before the last instant seen, a tick at `t₂` finds the
-- position at the paused position plus `t₂ - t₁` (saturating), capped by the duration: the pause
-- is not counted.
play-tick :
    (rt : ShowRuntime) (d : ShowDescriptor) (t₁ t₂ : ℕ)
    → rt.state ≡ paused
    → rt.show ≡ some d
    → rt.last_now_ms ≤ t₁
    → t₁ ≤ t₂
    → (apply (apply rt play t₁).0 tick t₂).0.position_ms
      ≡ min (saturating_add rt.position_ms (t₂ - t₁)) d.duration_ms
unfolding apply
play-tick rt d t₁ t₂ p s h le = ground arith
