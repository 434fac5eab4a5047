-- ===== src/Runtime/Machine.antt =====
-- crates/led-daemon/src/lib.rs: `ShowRuntime` and its handlers.
use led_platform.Prelude.{
  ℕ, ◌-◌, Bool, true, false, not, ◌&&◌, ◌++◌, List, [], ◌∷◌, Option, none, some, if◌then◌else◌, ltb,
  leb, min, max, is_some, saturating_add,
}
use led_platform.Runtime.Types.{
  State, idle, loaded, ready, playing, paused, stopped, finished, error, state_eq, ShowDescriptor,
  PreflightReport, is_clear, FaultCode, Command, load, unload, arm, play, pause, stop, seek, tick,
  fault, clear_fault, requires_show, Rejected, no_show_loaded, show_already_loaded,
  preflight_failed, not_armed, seek_out_of_range, in_error_state, not_applicable, advanced, sought,
  reset, Event, transitioned, show_loaded, show_unloaded, position_changed, reached_end, faulted,
  fault_cleared,
}

pub record ShowRuntime : Type 0 where
  pub state : State
  pub show : Option ShowDescriptor
  pub position_ms : ℕ
  pub play_started_at : Option ℕ
  pub play_started_from : ℕ
  pub fault_code : Option FaultCode
  pub last_now_ms : ℕ

-- `Result<Vec<Event>, Rejected>`, and the panics of `expect` and `unreachable!`.
pub data Outcome : Type 0 where
  accepted : List Event → Outcome
  rejected : Rejected → Outcome
  panics : Outcome

unfoldable pub new : ShowRuntime
new = record {
  state = idle;
  show = none;
  position_ms = 0;
  play_started_at = none;
  play_started_from = 0;
  fault_code = none;
  last_now_ms = 0;
}

abbrev pub is_playing : State → Bool
is_playing playing = true
is_playing _ = false

abbrev pub is_error : State → Bool
is_error error = true
is_error _ = false

-- `transition`: the event is emitted only if the state changed.
unfoldable pub transition : ShowRuntime → State → ShowRuntime × List Event
transition rt to =
    (record rt { state = to }, if state_eq rt.state to then [] else transitioned rt.state to ∷ [])

abbrev pub accept : ShowRuntime → State → List Event → ShowRuntime × Outcome
accept rt to more = let (rt', ev) = transition rt to in (rt', accepted (ev ++ more))

-- `advance_position`.
advanced_to : ℕ → Option ℕ → Option ShowDescriptor → ℕ → ℕ → ℕ
advanced_to now (some started_at) (some show) from position =
    min (saturating_add from (now - started_at)) show.duration_ms
advanced_to now _ _ from position = position

unfoldable pub advance_position : ShowRuntime → ℕ → ShowRuntime
unfolding advanced_to saturating_add
advance_position rt now = record rt {
  position_ms = advanced_to now rt.play_started_at rt.show rt.play_started_from rt.position_ms;
}

abbrev load_refusal : State → Option ShowDescriptor → Rejected
load_refusal s (some show) = show_already_loaded show.id
load_refusal s none = not_applicable s "load"

unfoldable pub cmd_load : ShowRuntime → ShowDescriptor → ShowRuntime × Outcome
unfolding transition
cmd_load rt desc =
    if state_eq rt.state idle
    then accept (record rt { show = some desc; position_ms = 0 }) loaded (show_loaded desc.id ∷ [])
    else (rt, rejected (load_refusal rt.state rt.show))

unfoldable pub cmd_unload : ShowRuntime → ShowRuntime × Outcome
unfolding transition
cmd_unload rt =
    if is_playing rt.state
    then (rt, rejected (not_applicable rt.state "unload"))
    else elim rt.show [
      | none ↦ (rt, panics)
      | some show ↦
          accept
            (record rt {
              show = none;
              position_ms = 0;
              play_started_at = none;
              play_started_from = 0;
              fault_code = none;
            })
            idle (show_unloaded show.id ∷ [])
    ]

abbrev arm_with : ShowRuntime → PreflightReport → ShowRuntime × Outcome
arm_with rt report =
    if is_clear report then accept rt ready [] else (rt, rejected (preflight_failed report))

unfoldable pub cmd_arm : ShowRuntime → PreflightReport → ShowRuntime × Outcome
unfolding transition is_clear
cmd_arm rt report = elim rt.state [
  | loaded ↦ arm_with rt report
  | stopped ↦ arm_with rt report
  | finished ↦ arm_with rt report
  | ready ↦ arm_with rt report
  | _ ↦ (rt, rejected (not_applicable rt.state "arm"))
]

abbrev start : ShowRuntime → ℕ → ShowRuntime × Outcome
start rt now =
    accept (record rt { play_started_at = some now; play_started_from = rt.position_ms }) playing []

-- Resuming from `Paused` is the same branch: the position is kept.
unfoldable pub cmd_play : ShowRuntime → ℕ → ShowRuntime × Outcome
unfolding transition
cmd_play rt now = elim rt.state [
  | loaded ↦ (rt, rejected not_armed)
  | ready ↦ start rt now
  | paused ↦ start rt now
  | stopped ↦ start rt now
  | idle ↦ (rt, panics)
  | playing ↦ (rt, rejected (not_applicable rt.state "play"))
  | finished ↦ (rt, rejected (not_applicable rt.state "play"))
  | error ↦ (rt, panics)
]

abbrev pause_at : ShowRuntime → ShowRuntime × Outcome
pause_at rt = accept rt paused (position_changed rt.position_ms advanced ∷ [])

unfoldable pub cmd_pause : ShowRuntime → ℕ → ShowRuntime × Outcome
unfolding transition advance_position
cmd_pause rt now =
    if is_playing rt.state
    then pause_at (record (advance_position rt now) { play_started_at = none })
    else (rt, rejected (not_applicable rt.state "pause"))

abbrev halt : ShowRuntime → ShowRuntime × Outcome
halt rt =
    accept (record rt { position_ms = 0; play_started_at = none; play_started_from = 0 }) stopped
      (position_changed 0 reset ∷ [])

unfoldable pub cmd_stop : ShowRuntime → ShowRuntime × Outcome
unfolding transition
cmd_stop rt = elim rt.state [
  | playing ↦ halt rt
  | paused ↦ halt rt
  | finished ↦ halt rt
  | _ ↦ (rt, rejected (not_applicable rt.state "stop"))
]

-- `matches!` of `cmd_seek`: every state but `Idle` and `Error`.
abbrev pub seekable : State → Bool
seekable idle = false
seekable error = false
seekable _ = true

unfoldable pub cmd_seek : ShowRuntime → ℕ → ℕ → ShowRuntime × Outcome
cmd_seek rt to_ms now = elim rt.show [
  | none ↦ (rt, panics)
  | some show ↦
      if not (seekable rt.state)
      then (rt, rejected (not_applicable rt.state "seek"))
      else if ltb show.duration_ms to_ms
      then (rt, rejected (seek_out_of_range to_ms show.duration_ms))
      else (
        if is_playing rt.state
            then record rt {
              position_ms = to_ms;
              play_started_at = some now;
              play_started_from = to_ms;
            }
            else record rt { position_ms = to_ms },
        accepted (position_changed to_ms sought ∷ []),
      )
]

-- After the advance: the end of the show is reached at its duration.
abbrev ticked : ShowRuntime → Option ShowDescriptor → ShowRuntime × Outcome
ticked rt none = (rt, panics)
ticked rt (some show) =
    let moved = position_changed rt.position_ms advanced ∷ [] in
    let at_end = record rt { position_ms = show.duration_ms; play_started_at = none } in
    let (rt', ev) = transition at_end finished in
    if leb show.duration_ms rt.position_ms
    then (rt', accepted (moved ++ ev ++ reached_end ∷ []))
    else (rt, accepted moved)

unfoldable pub cmd_tick : ShowRuntime → ℕ → ShowRuntime × Outcome
unfolding advance_position transition
cmd_tick rt now =
    if is_playing rt.state then ticked (advance_position rt now) rt.show else (rt, accepted [])

unfoldable pub cmd_fault : ShowRuntime → FaultCode → ℕ → ShowRuntime × Outcome
unfolding advance_position transition
cmd_fault rt c now =
    let rt' = if is_playing rt.state then advance_position rt now else rt in
    accept (record rt' { play_started_at = none; fault_code = some c }) error (faulted c ∷ [])

unfoldable pub cmd_clear_fault : ShowRuntime → ShowRuntime × Outcome
unfolding transition
cmd_clear_fault rt =
    if is_error rt.state
    then accept (record rt { fault_code = none }) loaded (fault_cleared ∷ [])
    else (rt, rejected (not_applicable rt.state "clear_fault"))

-- The `match cmd` of `apply`.
unfoldable pub dispatch : ShowRuntime → Command → ℕ → ShowRuntime × Outcome
unfolding cmd_load cmd_unload cmd_arm cmd_play cmd_pause cmd_stop cmd_seek cmd_tick cmd_fault
    cmd_clear_fault
dispatch rt (load desc) now = cmd_load rt desc
dispatch rt unload now = cmd_unload rt
dispatch rt (arm report) now = cmd_arm rt report
dispatch rt play now = cmd_play rt now
dispatch rt pause now = cmd_pause rt now
dispatch rt stop now = cmd_stop rt
dispatch rt (seek to_ms) now = cmd_seek rt to_ms now
dispatch rt tick now = cmd_tick rt now
dispatch rt (fault c) now = cmd_fault rt c now
dispatch rt clear_fault now = cmd_clear_fault rt

-- `matches!(cmd, ClearFault | Unload | Tick)`.
abbrev pub passes_error : Command → Bool
passes_error clear_fault = true
passes_error unload = true
passes_error tick = true
passes_error _ = false

abbrev error_refusal : Option FaultCode → Outcome
error_refusal (some c) = rejected (in_error_state c)
error_refusal none = panics

unfoldable pub guarded : ShowRuntime → Command → ℕ → ShowRuntime × Outcome
unfolding dispatch
guarded rt cmd now =
    if is_error rt.state && not (passes_error cmd)
    then (rt, error_refusal rt.fault_code)
    else if requires_show cmd && not (is_some rt.show)
    then (rt, rejected no_show_loaded)
    else dispatch rt cmd now

-- A clock that goes back is clamped to the last instant seen, before any guard.
unfoldable pub apply : ShowRuntime → Command → ℕ → ShowRuntime × Outcome
unfolding guarded
apply rt cmd now =
    let now_ms = max now rt.last_now_ms in guarded (record rt { last_now_ms = now_ms }) cmd now_ms
