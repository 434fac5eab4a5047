-- ===== src/Runtime/Invariant.antt =====
-- What holds of a `ShowRuntime` between two commands, and what every command keeps.
use led_platform.Prelude.{
  true, ℕ, ◌+◌, ◌-◌, ◌≤◌, ◌≡◌, ◌≢◌, List, [], ◌∷◌, Option, none, some, max, is_some, arith,
}
use led_platform.Runtime.Types.{has_show, ShowDescriptor, Command, Rejected}
use led_platform.Runtime.Machine.{ShowRuntime, rejected, panics, new, is_playing, is_error, apply}

abbrev pub duration : Option ShowDescriptor → ℕ
duration none = 0
duration (some show) = show.duration_ms

abbrev pub started_at : Option ℕ → ℕ
started_at none = 0
started_at (some t) = t

pub record IsCoherent (rt : ShowRuntime) : Type 0 where
  pub show_iff : is_some rt.show ≡ has_show rt.state
  pub started_iff : is_some rt.play_started_at ≡ is_playing rt.state
  pub fault_iff : is_some rt.fault_code ≡ is_error rt.state
  pub position_le : rt.position_ms ≤ duration rt.show
  pub started_from_le : rt.play_started_from ≤ duration rt.show
  pub started_at_le : started_at rt.play_started_at ≤ rt.last_now_ms
  pub not_ahead :
      is_playing rt.state ≡ true
      → rt.position_ms ≤ rt.play_started_from + (rt.last_now_ms - started_at rt.play_started_at)

pub new-IsCoherent : IsCoherent new
unfolding new
new-IsCoherent = ground arith

pub apply-IsCoherent :
    (rt : ShowRuntime) (cmd : Command) (now : ℕ) → IsCoherent rt → IsCoherent (apply rt cmd now).0
unfolding apply
apply-IsCoherent rt cmd now h = ground arith

-- From a coherent run time no command reaches an `unreachable!` or an `expect` on an absent value.
pub apply-ne-panics :
    (rt : ShowRuntime) (cmd : Command) (now : ℕ) → IsCoherent rt → (apply rt cmd now).1 ≢ panics
unfolding apply
apply-ne-panics rt cmd now h = ground arith

-- A rejected command leaves every field of the run time as it was, but for the last instant seen,
-- which is raised to the instant of the command.
rejected_unchanged :
    (rt : ShowRuntime) (cmd : Command) (now : ℕ) {r : Rejected}
    → (apply rt cmd now).1 ≡ rejected r
    → (apply rt cmd now).0 ≡ record rt { last_now_ms = max now rt.last_now_ms }
unfolding apply
rejected_unchanged rt cmd now h = ground arith

-- A history: the commands with the instants at which they arrive.
unfoldable pub run : ShowRuntime → List (Command × ℕ) → ShowRuntime
run rt [] = rt
run rt ((cmd, now) ∷ cs) = run (apply rt cmd now).0 cs

-- Every history of commands keeps the run time coherent: a show is present exactly outside `Idle`,
-- a start instant exactly in `Playing`, a fault exactly in `Error`, and the position and the
-- origin of the current play are at most the duration.
pub run-IsCoherent :
    (rt : ShowRuntime) (cs : List (Command × ℕ)) → IsCoherent rt → IsCoherent (run rt cs)
unfolding run
run-IsCoherent rt [] h = h
run-IsCoherent rt ((cmd, now) ∷ cs) h =
    run-IsCoherent (apply rt cmd now).0 cs (apply-IsCoherent rt cmd now h)
