-- ===== src/Hardware/Validated.antt =====
-- A profile that `validate` finds no error in, and `compile_layout` on it.
use native.Mathlib.Nat.{div-mul-le_self}
use led_platform.Prelude.{
  ap, dec_lt, Result-cases, inl, inr, ◌-◌, refl, ◌||◌, [], false, is_ok, length, ltb, mul_mono, not,
  some, suc, suc-mul_mono, true, u32, ◌&&◌, ◌*◌, ◌+◌, ◌/◌, ◌<◌, ◌==◌, ◌∷◌, ◌≤◌, Bool, List, ok, ℕ,
  arith, ◌≡◌,
}
use led_platform.Color.{channels}
use led_platform.Layout.Compile.{DeviceId, CompiledLayout}
use led_platform.Layout.Correct.{compile-AllPlaced}
use led_platform.Layout.Linear.{universe_size}
use led_platform.Hardware.Repartition.{
  aceita, Fatia, FatiaDePorta, porta_of, portas_from, repartir, repartir_portas_de, div_ceil,
}
use led_platform.Hardware.Shares.{is_ok-repartir, repartir-IsShared}
use led_platform.Hardware.Profile.{HardwareProfile, schema_version_known}
use led_platform.Hardware.Validate.{
  Available, has_errors, validate, is_universe_based, has_errors-push_if, contains_interface,
  contains_protocol, severity,
}
use led_platform.Hardware.Compile.{compile_layout, compile_layout_de, assignments_of}

not-or : (a b : Bool) → not (a || b) ≡ (not a && not b)
not-or false b = refl
not-or true b = refl

and_assoc : (a b c : Bool) → ((a && b) && c) ≡ (a && (b && c))
and_assoc false b c = refl
and_assoc true b c = refl

and-true : (a : Bool) → (a && true) ≡ a
and-true false = refl
and-true true = refl

and-false : (a : Bool) → (a && false) ≡ false
and-false false = refl
and-false true = refl

not-not : (a : Bool) → not (not a) ≡ a
not-not false = refl
not-not true = refl

module _ {F : Type 0} (is_positive in_unit : F → Bool) where
  -- For any tests of floating-point numbers, `validate` reports no error exactly when twelve
  -- conditions hold together, on the version, the interface, the protocol, the ports, the pixels
  -- of a universe for universe-based protocols, the three limits, the power and the calibration;
  -- the two warnings do not count.
  has_errors-validate :
      (p : HardwareProfile F) (available : Available)
      → not (has_errors (validate is_positive in_unit p available)) ≡ (
          p.schema_version == schema_version_known
          && (contains_interface (p.capabilities.output_interface) (available.interfaces)
              && (contains_protocol (p.capabilities.protocol) (available.protocols)
                  && (not (p.capabilities.ports == 0)
                      && (not (
                            is_universe_based (p.capabilities.protocol)
                            && ltb universe_size
                                (p.limits.pixels_per_universe * channels (p.capabilities.color)))
                          && (not (p.limits.pixels_per_universe == 0)
                              && (not (p.limits.max_pixels == 0)
                                  && (not (p.limits.refresh_hz == 0)
                                      && (is_positive (p.power.voltage_v)
                                          && (is_positive (p.power.max_current_a)
                                              && (is_positive (p.calibration.gamma)
                                                  && in_unit (p.calibration.brightness))))))))))))
  unfolding validate has_errors severity
  has_errors-validate p available =
      simp (has_errors-push_if, not-or, and_assoc, and-true, and-false, not-not)

portas_from-total :
    (fs : List Fatia) (k step first : ℕ)
    → first + (k + length fs) * step ≤ 65536
    → 0 < step
    → is_ok (portas_from k step first fs) ≡ true
unfolding portas_from porta_of
portas_from-total [] k step first le pos = ground arith
portas_from-total (f ∷ fs) k step first le pos =
    let small : u32 (first + u32 (k * step)) ≡ first + k * step =
      omega (arith, mul_mono k (k + suc (length fs)) step) in
    let lt : first + k * step < 65536 = omega (arith, suc-mul_mono k (k + suc (length fs)) step) in
    let ih = portas_from-total fs (suc k) step first (omega arith) pos in
    ground (arith, small, lt, ih)

div_pos : (m n : ℕ) → 0 < n → n ≤ m → 0 < m / n
div_pos m n pos le = elim (dec_lt 0 (m / n)) [
  | yes p ↦ p
  | no z ↦
      let none_left : n * (m / n) ≡ n * 0 = ap (λ (k : ℕ). n * k) (omega arith) in
      absurd (omega (arith, none_left))
]

-- Ports and pixels within the limits are shared out.
repartir_portas_de-total :
    (ports ppu max_pixels n first : ℕ)
    → 0 < ports
    → 0 < ppu
    → max_pixels < 4294967296
    → ports ≤ max_pixels
    → n ≤ max_pixels / ports * ports
    → first + ports * div_ceil (max_pixels / ports) ppu ≤ 65536
    → (ps : List FatiaDePorta) × (repartir_portas_de ports ppu max_pixels n first ≡ ok ps)
unfolding repartir_portas_de
repartir_portas_de-total ports ppu max_pixels n first p q narrow spread fits room =
    let cap : ℕ = max_pixels / ports in
    let cap_pos : 0 < cap = div_pos max_pixels ports p spread in
    let step_pos : 0 < div_ceil cap ppu = div_pos (cap + (ppu - 1)) ppu q (omega arith) in
    let w : cap * ports < 4294967296 = omega (arith, div-mul-le_self max_pixels ports) in
    let shared = is_ok-repartir n cap ports aceita w in
    elim (Result-cases (repartir n cap ports aceita)) [
      | inr (x, e) ↦ absurd (ground arith)
      | inl (fs, e) ↦
          let (s, l, t) = repartir-IsShared n cap ports aceita fs w e in
          let total =
            portas_from-total fs 0 (div_ceil cap ppu) first (rw l (omega (arith, room))) step_pos in
          elim (Result-cases (portas_from 0 (div_ceil cap ppu) first fs)) [
            | inr (x, f) ↦ absurd (ground arith)
            | inl (ps, f) ↦ (ps, ground arith)
          ]
    ]

module _ {F : Type 0} (is_positive in_unit : F → Bool) where
  -- A profile of a universe-based protocol in which `validate` finds no error compiles to a
  -- layout, if it has at most as many ports as pixels and fewer than 2^32 pixels, the pixel count
  -- fits the ports' equal shares, and the universes of all ports end by 65,536.
  pub validated-compile_layout :
      (p : HardwareProfile F) (available : Available) (pixel_count first : ℕ) (device : DeviceId)
      → has_errors (validate is_positive in_unit p available) ≡ false
      → is_universe_based (p.capabilities.protocol) ≡ true
      → p.limits.max_pixels < 4294967296
      → p.capabilities.ports ≤ p.limits.max_pixels
      → pixel_count ≤ p.limits.max_pixels / p.capabilities.ports * p.capabilities.ports
      → first
          + p.capabilities.ports
            * div_ceil (p.limits.max_pixels / p.capabilities.ports) (p.limits.pixels_per_universe)
        ≤ 65536
      → (l : CompiledLayout) × (compile_layout p pixel_count device first ≡ ok (some l))
  unfolding compile_layout compile_layout_de
  validated-compile_layout p available pixel_count first device clean based narrow spread fits
        room =
      let cap : ℕ = p.limits.max_pixels / p.capabilities.ports in
      let step : ℕ = div_ceil cap (p.limits.pixels_per_universe) in
      let u = has_errors-validate is_positive in_unit p available in
      let ports : 0 < p.capabilities.ports = ground (arith, u) in
      let per : 0 < p.limits.pixels_per_universe = ground (arith, u) in
      let packed : ltb universe_size
            (p.limits.pixels_per_universe * channels (p.capabilities.color))
          ≡ false =
        ground (arith, u) in
      let (ps, shared) =
        repartir_portas_de-total (p.capabilities.ports) (p.limits.pixels_per_universe)
          (p.limits.max_pixels) pixel_count first ports per narrow spread fits room in
      let (l, e, placed) =
        compile-AllPlaced
          (assignments_of (p.limits.pixels_per_universe) (p.capabilities.color) device ps) in
      let most : pixel_count ≤ p.limits.max_pixels =
        omega (arith, div-mul-le_self (p.limits.max_pixels) (p.capabilities.ports)) in
      (l, ground arith)
