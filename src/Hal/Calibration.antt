-- ===== src/Hal/Calibration.antt =====
-- crates/led-hal/src/calibration.rs: the tables of 256 bytes and their use. A table made from `f32`
-- numbers is a parameter of what uses it; a byte is below 256, so that no read is out of the table.
use led_platform.Prelude.{
  [], false, get_or, if◌then◌else◌, map, none, refl, some, suc, true, zero, ◌+◌, ◌<◌, ◌==◌, ◌∷◌,
  Bool, Option, List, ℕ, arith, ◌≡◌,
}
use led_platform.Layout.Compile.{DeviceId}

abbrev pub CalibrationLut : Type 0
CalibrationLut = List ℕ

unfoldable pub count_from : ℕ → ℕ → List ℕ
count_from i zero = []
count_from i (suc n) = i ∷ count_from (suc i) n

unfoldable pub identity : CalibrationLut
unfolding count_from
identity = count_from 0 256

-- `CalibrationLut::map`.
abbrev pub lut_at : CalibrationLut → ℕ → ℕ
lut_at lut b = get_or lut b 0

unfoldable pub apply_in_place : CalibrationLut → List ℕ → List ℕ
apply_in_place lut channels = map (lut_at lut) channels

-- `HashMap::insert`: a device's old table gives way.
abbrev pub Calibration : Type 0
Calibration = List (DeviceId × CalibrationLut)

unfoldable pub set_lut : Calibration → DeviceId → CalibrationLut → Calibration
set_lut [] d lut = (d, lut) ∷ []
set_lut ((e, l) ∷ c) d lut = if e == d then (d, lut) ∷ c else (e, l) ∷ set_lut c d lut

unfoldable pub lut_of : Calibration → DeviceId → Option CalibrationLut
lut_of [] d = none
lut_of ((e, l) ∷ c) d = if e == d then some l else lut_of c d

abbrev pub is_empty : Calibration → Bool
is_empty [] = true
is_empty (x ∷ c) = false

lut_of-set_lut :
    (c : Calibration) (d e : DeviceId) (lut : CalibrationLut)
    → lut_of (set_lut c d lut) e ≡ (if d == e then some lut else lut_of c e)
unfolding lut_of set_lut
lut_of-set_lut [] d e lut = refl
lut_of-set_lut ((f, l) ∷ c) d e lut = ground (arith, lut_of-set_lut c d e lut)

get_or-count_from : (i n b : ℕ) → b < n → get_or (count_from i n) b 0 ≡ i + b
unfolding count_from
get_or-count_from i zero b lt = absurd (omega arith)
get_or-count_from i (suc n) zero lt = omega arith
get_or-count_from i (suc n) (suc b) lt = omega (arith, get_or-count_from (suc i) n b (omega arith))

abbrev pub AllBytes : List ℕ → Type 0
AllBytes [] = Unit {0}
AllBytes (b ∷ bs) = (b < 256) × AllBytes bs

-- The identity table changes no byte.
apply_in_place-identity : (bs : List ℕ) → AllBytes bs → apply_in_place identity bs ≡ bs
unfolding apply_in_place identity
apply_in_place-identity [] h = refl
apply_in_place-identity (b ∷ bs) h =
    let e : get_or (count_from 0 256) b 0 ≡ b = omega (arith, get_or-count_from 0 256 b h.0) in
    rw (e, apply_in_place-identity bs h.1)
