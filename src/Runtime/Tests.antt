-- ===== src/Runtime/Tests.antt =====
-- The theorems of the run time at concrete shows, and a life of a show.
use led_platform.Prelude.{List, [], arith, false, none, refl, some, ◌∷◌, ◌≡◌, ◌≢◌, ℕ}
use led_platform.Runtime.Types.{
  playing, ShowDescriptor, all_clear, Command, load, arm, play, stop, seek, tick,
}
use led_platform.Runtime.Machine.{ShowRuntime, panics, new, apply}
use led_platform.Runtime.Invariant.{
  IsCoherent, run, new-IsCoherent, run-IsCoherent, apply-ne-panics,
}
use led_platform.Runtime.Graph.{
  Moves, HasArm, accepted-admits, is_accepted, apply-Moves, armed_needs_arm,
}

abbrev show : ShowDescriptor
show = record { id = 7; frame_count = 100; pixel_count = 720; duration_ms = 4000 }

-- On the way at 2,500 ms, started at the instant 1,000.
abbrev on_air : ShowRuntime
on_air = record {
  state = playing;
  show = some show;
  position_ms = 2500;
  play_started_at = some 1000;
  play_started_from = 0;
  fault_code = none;
  last_now_ms = 3500;
}

on_air-IsCoherent : IsCoherent on_air
on_air-IsCoherent = ground arith

abbrev evening : List (Command × ℕ)
evening = (load show, 0) ∷ (arm all_clear, 0) ∷ (play, 1000) ∷ (tick, 3500) ∷ []

evening_runs : run new evening ≡ on_air
unfolding run apply new
evening_runs = refl

run-IsCoherent_example : IsCoherent (run new evening)
run-IsCoherent_example = run-IsCoherent new evening new-IsCoherent

apply-ne-panics_example : (apply on_air stop 3600).1 ≢ panics
apply-ne-panics_example = apply-ne-panics on_air stop 3600 on_air-IsCoherent

accepted-admits_example : is_accepted (apply on_air (seek 4001) 3600).1 ≡ false
accepted-admits_example = accepted-admits on_air (seek 4001) 3600 on_air-IsCoherent

apply-Moves_example : Moves playing tick (apply on_air tick 9000).0.state
apply-Moves_example = apply-Moves on_air tick 9000 on_air-IsCoherent

armed_needs_arm_example : HasArm evening
unfolding new
armed_needs_arm_example = armed_needs_arm new evening new-IsCoherent refl (rw evening_runs refl)
