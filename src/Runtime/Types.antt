-- ===== src/Runtime/Types.antt =====
-- crates/led-daemon/src/lib.rs: states, commands, refusals, events.
use led_platform.Prelude.{
  ℕ, Bool, true, false, ◌&&◌, ◌++◌, List, [], ◌∷◌, String, if◌then◌else◌, ◌==◌,
}

pub data State : Type 0 where
  idle loaded ready playing paused stopped finished error : State

abbrev pub has_show : State → Bool
has_show idle = false
has_show _ = true

-- The derived `PartialEq` compares the discriminants.
abbrev pub discriminant : State → ℕ
discriminant idle = 0
discriminant loaded = 1
discriminant ready = 2
discriminant playing = 3
discriminant paused = 4
discriminant stopped = 5
discriminant finished = 6
discriminant error = 7

abbrev pub state_eq : State → State → Bool
state_eq s t = discriminant s == discriminant t

-- `State::as_str`.
pub state_as_str : State → String
state_as_str idle = "idle"
state_as_str loaded = "loaded"
state_as_str ready = "ready"
state_as_str playing = "playing"
state_as_str paused = "paused"
state_as_str stopped = "stopped"
state_as_str finished = "finished"
state_as_str error = "error"

abbrev pub ShowId : Type 0
ShowId = ℕ

pub record ShowDescriptor : Type 0 where
  pub id : ShowId
  pub frame_count : ℕ  -- u64
  pub pixel_count : ℕ  -- u32
  pub duration_ms : ℕ  -- u64

pub record PreflightReport : Type 0 where
  pub integrity_verified : Bool
  pub network_ok : Bool
  pub devices_present : Bool

abbrev pub all_clear : PreflightReport
all_clear = record { integrity_verified = true; network_ok = true; devices_present = true }

unfoldable pub is_clear : PreflightReport → Bool
is_clear r = r.integrity_verified && r.network_ok && r.devices_present

abbrev push_unless : Bool → String → List String → List String
push_unless passed name v = if passed then v else v ++ name ∷ []

pub failures : PreflightReport → List String
failures r =
    push_unless r.devices_present "devices"
      (push_unless r.network_ok "network" (push_unless r.integrity_verified "integrity" []))

pub data FaultCode : Type 0 where
  device_lost source_failed policy_violation output_stalled : FaultCode

pub data Command : Type 0 where
  load : ShowDescriptor → Command
  unload : Command
  arm : PreflightReport → Command
  play pause stop : Command
  seek : ℕ → Command
  tick : Command
  fault : FaultCode → Command
  clear_fault : Command

abbrev pub requires_show : Command → Bool
requires_show unload = true
requires_show (arm r) = true
requires_show play = true
requires_show pause = true
requires_show stop = true
requires_show (seek to_ms) = true
requires_show (fault c) = true
requires_show _ = false

pub command_name : Command → String
command_name (load d) = "load"
command_name unload = "unload"
command_name (arm r) = "arm"
command_name play = "play"
command_name pause = "pause"
command_name stop = "stop"
command_name (seek to_ms) = "seek"
command_name tick = "tick"
command_name (fault c) = "fault"
command_name clear_fault = "clear_fault"

pub data Rejected : Type 0 where
  no_show_loaded : Rejected
  show_already_loaded : ShowId → Rejected
  preflight_failed : PreflightReport → Rejected
  not_armed : Rejected
  seek_out_of_range : ℕ → ℕ → Rejected
  in_error_state : FaultCode → Rejected
  not_applicable : State → String → Rejected

pub code : Rejected → String
code no_show_loaded = "no_show_loaded"
code (show_already_loaded id) = "show_already_loaded"
code (preflight_failed r) = "preflight_failed"
code not_armed = "not_armed"
code (seek_out_of_range to_ms duration_ms) = "seek_out_of_range"
code (in_error_state f) = "in_error_state"
code (not_applicable s c) = "not_applicable"

pub data PositionCause : Type 0 where
  advanced sought reset : PositionCause

pub data Event : Type 0 where
  transitioned : State → State → Event
  show_loaded show_unloaded : ShowId → Event
  position_changed : ℕ → PositionCause → Event
  reached_end : Event
  faulted : FaultCode → Event
  fault_cleared : Event
