-- ===== src/Daemon/Stage/Tests.antt =====
-- A show whose frame at a position has its number, on an output that lists what it takes, or takes
-- nothing.
use led_platform.Prelude.{Bool, List, [], arith, false, none, refl, some, true, ℕ, ◌∷◌, ◌≡◌}
use led_platform.Runtime.Types.{State, playing, paused, stopped}
use led_platform.Daemon.Output.Manager.{LogicalFrame}
use led_platform.Daemon.Stage.{Stage, Lookup, shows, on_tick, opened, ticks}
use led_platform.Daemon.Stage.Alive.{ticks-AllAlive, AllAlive, ticks-after_refusal}
use led_platform.Daemon.Stage.Shown.{ticks-AllShown, AllShown}

abbrev Nothing : Type 0
Nothing = Unit {0}

abbrev Log : Type 0
Log = List LogicalFrame

abbrev frame : ℕ → LogicalFrame
frame n = record { pixels = record { r = n; g = 0; b = 0 } ∷ []; timestamp_ms = n }

abbrev show : Nothing → ℕ → Nothing × Lookup
show s position_ms = (tt, shows (frame position_ms))

abbrev takes_all : Log → LogicalFrame → Log × Bool
takes_all log f = (f ∷ log, true)

abbrev takes_none : Log → LogicalFrame → Log × Bool
takes_none log f = (log, false)

abbrev run : List (State × ℕ × ℕ)
run = (paused, 40, 1500) ∷ (stopped, 0, 1800) ∷ (playing, 20, 1820) ∷ (paused, 20, 9000) ∷ []

abbrev fresh : Stage Nothing Log
fresh = record { source = tt; output = []; last_valid = none; last_sent_ms = none }

ticks-AllAlive_example :
    AllAlive show takes_all (on_tick show takes_all fresh playing 40 1000).stage 1000 run
ticks-AllAlive_example =
    ticks-AllAlive show takes_all (λ out f. refl) (λ s p e. ground arith) fresh (frame 40) tt 40
      1000 run refl

abbrev waiting : List (State × ℕ × ℕ)
waiting = (paused, 40, 1500) ∷ (stopped, 0, 9800) ∷ []

ticks-after_refusal_example :
    ticks show takes_none (on_tick show takes_none fresh playing 40 1000).stage waiting
    ≡ record fresh { source = tt; output = []; last_valid = some (frame 40) }
ticks-after_refusal_example =
    ticks-after_refusal show takes_none fresh (frame 40) tt [] 40 1000 waiting refl refl refl
      (refl, (refl, tt))

ticks-AllShown_example :
    AllShown show takes_all (opened show takes_all tt []) tt none ((playing, 40, 1000) ∷ run)
ticks-AllShown_example = ticks-AllShown show takes_all tt [] ((playing, 40, 1000) ∷ run)
