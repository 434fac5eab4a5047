-- ===== src/Hal/Simulator.antt =====
-- crates/led-hal/src/sim.rs: `SimulatorDevice`. Its lock holds for a whole operation.
use led_platform.Prelude.{
  Option-cases, String, [], false, get_elem?, if◌then◌else◌, inl, inr, length, map, none, refl,
  replicate, some, true, u64, ◌+◌, ◌==◌, ◌∷◌, ◌≢◌, Bool, Option, List, ℕ, arith, ◌≡◌,
}
use led_platform.Layout.Compile.{DeviceId}
use led_platform.Layout.Linear.{universe_size}
use led_platform.Layout.Apply.{UniverseData}
use led_platform.Hal.Output.{OutputError, transport, Answer, took, panics, DeviceDriver}

pub record DeviceConfig : Type 0 where
  pub name : Option String
  pub priority : Option ℕ

pub record SimulatorDevice : Type 0 where
  pub id : DeviceId
  pub connected : Bool
  pub frames_sent : ℕ
  pub config : DeviceConfig
  pub firmware_updates : ℕ
  pub mirror : List UniverseData

unfoldable pub new : DeviceId → List ℕ → SimulatorDevice
new id universes = record {
  id = id;
  connected = true;
  frames_sent = 0;
  config = record { name = none; priority = none };
  firmware_updates = 0;
  mirror = map (λ u. record { universe = u; data_bytes = replicate universe_size 0 }) universes;
}

abbrev pub kept_slot : UniverseData → Option (List UniverseData) → Option (List UniverseData)
kept_slot m none = none
kept_slot m (some ms) = some (m ∷ ms)

-- The first slot of the universe takes the bytes; other lengths are a panic, no slot is no matter.
unfoldable pub copy_universe : List UniverseData → UniverseData → Option (List UniverseData)
copy_universe [] u = some []
copy_universe (m ∷ ms) u =
    let here =
      if length m.data_bytes == length u.data_bytes
      then some (record m { data_bytes = u.data_bytes } ∷ ms)
      else none in
    let later = kept_slot m (copy_universe ms u) in if m.universe == u.universe then here else later

unfoldable pub copy_all : List UniverseData → List UniverseData → Option (List UniverseData)
unfolding copy_universe
copy_all mirror [] = some mirror
copy_all mirror (u ∷ us) = elim (copy_universe mirror u) [
  | none ↦ none
  | some mirror' ↦ copy_all mirror' us
]

abbrev pub mirrored : SimulatorDevice → Option (List UniverseData) → SimulatorDevice × Answer
mirrored s none = (s, panics)
mirrored s (some mirror) = (record s { mirror = mirror }, took)

unfoldable pub send_physical : SimulatorDevice → List UniverseData → SimulatorDevice × Answer
unfolding copy_all
send_physical s us =
    mirrored (record s { frames_sent = u64 (s.frames_sent + 1) }) (copy_all s.mirror us)

abbrev pub simulator : DeviceDriver SimulatorDevice
simulator = record { id = λ s. s.id; send_physical = send_physical }

unfoldable pub channel_of : List UniverseData → ℕ → ℕ → Option ℕ
channel_of [] universe ch = none
channel_of (m ∷ ms) universe ch =
    if m.universe == universe then get_elem? m.data_bytes ch else channel_of ms universe ch

unfoldable pub channel : SimulatorDevice → ℕ → ℕ → Option ℕ
unfolding channel_of
channel s universe ch = channel_of s.mirror universe ch

unfoldable pub connect : SimulatorDevice → SimulatorDevice
connect s = record s { connected = true }

unfoldable pub disconnect : SimulatorDevice → SimulatorDevice
disconnect s = record s { connected = false }

unfoldable pub configure : SimulatorDevice → DeviceConfig → SimulatorDevice
configure s cfg = record s { config = cfg }

unfoldable pub reboot : SimulatorDevice → SimulatorDevice
reboot s = record s { frames_sent = 0 }

abbrev pub is_nil : List ℕ → Bool
is_nil [] = true
is_nil (x ∷ xs) = false

unfoldable pub update_firmware : SimulatorDevice → List ℕ → SimulatorDevice × Option OutputError
update_firmware s image =
    if s.connected
    then (s, some transport)
    else if is_nil image
    then (s, some transport)
    else (record s { firmware_updates = u64 (s.firmware_updates + 1) }, none)

-- The slots are those of the universes, in their order, and no universe number comes twice.
abbrev pub Absent : ℕ → List UniverseData → Type 0
Absent v [] = Unit {0}
Absent v (u ∷ us) = (u.universe ≢ v) × Absent v us

abbrev pub Fits : List UniverseData → List UniverseData → Type 0
Fits [] [] = Unit {0}
Fits (m ∷ ms) (u ∷ us) =
    (m.universe ≡ u.universe)
    × (length m.data_bytes ≡ length u.data_bytes)
    × Absent u.universe us
    × Fits ms us
Fits _ _ = ⊥

copy_all-skip :
    (us ms ms' : List UniverseData) (m : UniverseData)
    → Absent m.universe us
    → copy_all ms us ≡ some ms'
    → copy_all (m ∷ ms) us ≡ some (m ∷ ms')
unfolding copy_all
copy_all-skip [] ms ms' m a e = ground arith
copy_all-skip (u ∷ us) ms ms' m (ne, a) e = elim (Option-cases (copy_universe ms u)) [
  | inl n ↦ absurd (ground arith)
  | inr (ms₁, q) ↦
      let other : (m.universe == u.universe) ≡ false = ground (arith, ne) in
      let one : copy_universe (m ∷ ms) u ≡ some (m ∷ ms₁) = rw (other, q, copy_universe) in
      rw (one, copy_all) (copy_all-skip us ms₁ ms' m a (ground arith))
]

copy_all-Fits : (us ms : List UniverseData) → Fits ms us → copy_all ms us ≡ some us
unfolding copy_all
copy_all-Fits [] [] f = refl
copy_all-Fits [] (m ∷ ms) f = absurd f
copy_all-Fits (u ∷ us) [] f = absurd f
copy_all-Fits (u ∷ us) (m ∷ ms) (e, l, a, f) =
    let one : copy_universe (m ∷ ms) u ≡ some (u ∷ ms) =
      unfold copy_universe in ground (arith, e, l) in
    rw (one, copy_all) (copy_all-skip us ms us u a (copy_all-Fits us ms f))

-- The mirror is the last frame.
send_physical-mirror :
    (s : SimulatorDevice) (us : List UniverseData)
    → Fits s.mirror us
    → send_physical s us ≡ (record s { mirror = us; frames_sent = u64 (s.frames_sent + 1) }, took)
unfolding send_physical
send_physical-mirror s us f = rw (copy_all-Fits us s.mirror f)

-- Management commands.
pub data Command : Type 0 where
  connects disconnects reboots : Command
  configures : DeviceConfig → Command
  updates : List ℕ → Command
  sends : List UniverseData → Command

unfoldable pub manage : SimulatorDevice → Command → SimulatorDevice
manage s connects = connect s
manage s disconnects = disconnect s
manage s reboots = reboot s
manage s (configures cfg) = configure s cfg
manage s (updates image) = (update_firmware s image).0
manage s (sends us) = (send_physical s us).0

mirrored-firmware :
    (s : SimulatorDevice) (o : Option (List UniverseData))
    → (mirrored s o).0.firmware_updates ≡ s.firmware_updates
mirrored-firmware s none = refl
mirrored-firmware s (some mirror) = refl

firmware_needs_disconnect :
    (s : SimulatorDevice) (c : Command)
    → (manage s c).firmware_updates ≢ s.firmware_updates
    → (s.connected ≡ false) × ((manage s c).connected ≡ false) × ((manage s c).mirror ≡ s.mirror)
unfolding manage connect disconnect reboot configure update_firmware send_physical
firmware_needs_disconnect s connects ne = absurd (ne refl)
firmware_needs_disconnect s disconnects ne = absurd (ne refl)
firmware_needs_disconnect s reboots ne = absurd (ne refl)
firmware_needs_disconnect s (configures cfg) ne = absurd (ne refl)
firmware_needs_disconnect s (updates image) ne = ground (arith, ne)
firmware_needs_disconnect s (sends us) ne = absurd (
    ne (
      mirrored-firmware (record s { frames_sent = u64 (s.frames_sent + 1) })
        (copy_all s.mirror us)))
