-- ===== src/Runtime/Graph.antt =====
-- The life of a show as a diagram: which commands are taken in which state, and where they lead.
use led_platform.Prelude.{
  ℕ, ◌≡◌, ◌⊎◌, inl, inr, refl, Bool, true, false, not, ◌&&◌, List, [], ◌∷◌, some, leb,
  if◌then◌else◌, arith, Bool-cases,
}
use led_platform.Runtime.Types.{
  ShowDescriptor, State, idle, loaded, ready, playing, paused, stopped, finished, error, has_show,
  state_eq, PreflightReport, is_clear, FaultCode, Command, load, unload, arm, play, pause, stop,
  seek, tick, fault, clear_fault, in_error_state, Event, transitioned,
}
use led_platform.Runtime.Machine.{
  ShowRuntime, Outcome, accepted, rejected, is_playing, is_error, seekable, passes_error, apply,
}
use led_platform.Runtime.Invariant.{IsCoherent, duration, run, apply-IsCoherent}

abbrev pub armable : State → Bool
armable loaded = true
armable ready = true
armable stopped = true
armable finished = true
armable _ = false

abbrev pub playable : State → Bool
playable ready = true
playable paused = true
playable stopped = true
playable _ = false

abbrev pub stoppable : State → Bool
stoppable playing = true
stoppable paused = true
stoppable finished = true
stoppable _ = false

-- The rows of the transition matrix.
abbrev pub admits : ShowRuntime → Command → Bool
admits rt (load d) = not (has_show rt.state)
admits rt unload = has_show rt.state && not (is_playing rt.state)
admits rt (arm r) = armable rt.state && is_clear r
admits rt play = playable rt.state
admits rt pause = is_playing rt.state
admits rt stop = stoppable rt.state
admits rt (seek to_ms) = seekable rt.state && leb to_ms (duration rt.show)
admits rt tick = true
admits rt (fault c) = has_show rt.state && not (is_error rt.state)
admits rt clear_fault = is_error rt.state

abbrev pub is_accepted : Outcome → Bool
is_accepted (accepted ev) = true
is_accepted _ = false

-- The arrows of the diagram. What is not an arrow leaves the state.
pub data Moves : State → Command → State → Type 0 where
  loads : {d : ShowDescriptor} → Moves idle (load d) loaded
  unloads : {s : State} → has_show s ≡ true → is_playing s ≡ false → Moves s unload idle
  arms :
      {s : State} {r : PreflightReport}
      → armable s ≡ true
      → is_clear r ≡ true
      → Moves s (arm r) ready
  plays : {s : State} → playable s ≡ true → Moves s play playing
  pauses : Moves playing pause paused
  stops : {s : State} → stoppable s ≡ true → Moves s stop stopped
  ends : Moves playing tick finished
  faults :
      {s : State} {c : FaultCode} → has_show s ≡ true → is_error s ≡ false → Moves s (fault c) error
  clears : Moves error clear_fault loaded
  stays : {s t : State} {c : Command} → s ≡ t → Moves s c t

-- From a coherent run time a command is accepted exactly when the matrix of commands and states
-- admits it: `arm` also needs a clear report, `seek` a target within the duration.
pub accepted-admits :
    (rt : ShowRuntime) (cmd : Command) (now : ℕ)
    → IsCoherent rt
    → is_accepted (apply rt cmd now).1 ≡ admits rt cmd
unfolding apply
accepted-admits rt cmd now h = ground arith

-- From a coherent run time every command, at any instant, either leaves the state or follows an
-- arrow of the transition diagram for that command.
pub apply-Moves :
    (rt : ShowRuntime) (cmd : Command) (now : ℕ)
    → IsCoherent rt
    → Moves rt.state cmd (apply rt cmd now).0.state
unfolding apply
apply-Moves rt cmd now h =
    grind (arith, loads, unloads, arms, plays, pauses, stops, ends, faults, clears, stays)

-- In `Error` with a recorded fault every command but `clear_fault`, `unload` and `tick` is refused
-- with that fault.
error_absorbs :
    (rt : ShowRuntime) (cmd : Command) (now : ℕ) {c : FaultCode}
    → IsCoherent rt
    → rt.state ≡ error
    → rt.fault_code ≡ some c
    → passes_error cmd ≡ false
    → (apply rt cmd now).1 ≡ rejected (in_error_state c)
unfolding apply
error_absorbs rt cmd now h e f q = ground arith

abbrev pub transitions : List Event → List (State × State)
transitions [] = []
transitions (transitioned s t ∷ ev) = (s, t) ∷ transitions ev
transitions (_ ∷ ev) = transitions ev

-- The events of an accepted command contain one transition, from the state before to the state
-- after, if these differ, and none otherwise.
transitions_exact :
    (rt : ShowRuntime) (cmd : Command) (now : ℕ) {ev : List Event}
    → (apply rt cmd now).1 ≡ accepted ev
    → let rt' = (apply rt cmd now).0 in
      transitions ev ≡ (if state_eq rt.state rt'.state then [] else (rt.state, rt'.state) ∷ [])
unfolding apply
transitions_exact rt cmd now h = ground arith

-- The states from which nothing plays before a preflight passes.
abbrev pub unarmed : State → Bool
unarmed idle = true
unarmed loaded = true
unarmed error = true
unarmed _ = false

-- Some `arm` of the history carries a clear report.
abbrev pub HasArm : List (Command × ℕ) → Type 0
HasArm [] = ⊥
HasArm ((cmd, now) ∷ cs) = ((r : PreflightReport) × (cmd ≡ arm r) × (is_clear r ≡ true)) ⊎ HasArm cs

Moves-arm :
    {s t : State} {cmd : Command}
    → Moves s cmd t
    → unarmed s ≡ true
    → unarmed t ≡ false
    → (r : PreflightReport) × (cmd ≡ arm r) × (is_clear r ≡ true)
Moves-arm loads u a = cc
Moves-arm (unloads _ _) u a = cc
Moves-arm (arms {r = r} _ c) u a = (r, refl, c)
Moves-arm (plays {s = s} p) u a = absurd (ground arith)
Moves-arm pauses u a = cc
Moves-arm (stops {s = s} p) u a = absurd (ground arith)
Moves-arm ends u a = cc
Moves-arm (faults _ _) u a = cc
Moves-arm clears u a = cc
Moves-arm (stays e) u a = absurd (ground arith)

-- A history that leads from `Idle`, `Loaded` or `Error` to `Ready`, `Playing`, `Paused`, `Stopped`
-- or `Finished` contains an `arm` command with a clear report, from any coherent run time.
pub armed_needs_arm :
    (rt : ShowRuntime) (cs : List (Command × ℕ))
    → IsCoherent rt
    → unarmed rt.state ≡ true
    → unarmed (run rt cs).state ≡ false
    → HasArm cs
unfolding run
armed_needs_arm rt [] h u a = absurd (ground arith)
armed_needs_arm rt ((cmd, now) ∷ cs) h u a =
    let rt' = (apply rt cmd now).0 in
    elim (Bool-cases (unarmed rt'.state)) [
      | inl e ↦ inr (armed_needs_arm rt' cs (apply-IsCoherent rt cmd now h) e a)
      | inr e ↦ inl (Moves-arm (apply-Moves rt cmd now h) u e)
    ]
