-- ===== src/Daemon/Output/Config.antt =====
-- crates/led-daemon-bin/src/output.rs: `Alvo` and `OutputConfig`. `A` stands for `SocketAddr`, with
-- its equality, its test for loopback and its parser, and `F` for `f32`, as in the profiles.
use led_platform.Prelude.{
  Bool, List, Option, Result, [], err, false, get_elem?, if◌then◌else◌, length, map, none, not, ok,
  some, suc, true, u32, ℕ, ◌&&◌, ◌++◌, ◌==◌, ◌∷◌,
}
use led_platform.Prelude.{◌>>=◌}
use led_platform.Color.{ColorFormat, RgbOrder, rgbw}
use led_platform.Layout.Compile.{CompiledLayout}
use led_platform.Hardware.Profile.{HardwareProfile, Calibration, Transport, ethernet, wi_fi}
use led_platform.Hardware.Transport.{pixels_per_datagram, datagrams_for, heartbeat_is_safe}
use led_platform.Hardware.Validate.{Available, Finding, validate, has_errors, severity, is_error}
use led_platform.Hardware.Repartition.{Fatia, repartir as share_out, recusa}
use led_platform.Hardware.Compile.{CompileError, compile_layout_de}
use led_platform.Daemon.Output.Protocol.{OutputProtocol, from_protocol, to_protocol, all_protocols}
use led_platform.Daemon.Output.Spec.{
  ConfigError, no_address, repeated_address, invalid_profile, no_pixels, unsafe_heartbeat,
  not_shared, um_endereco,
}

pub record SocketAddr (A : Type 0) : Type 0 where
  pub same_addr : A → A → Bool
  pub is_loopback : A → Bool
  pub parse_addr : List ℕ → Option A

pub record Alvo (A : Type 0) : Type 0 where
  pub addr : A
  pub first_universe : ℕ
  pub pixel_offset : ℕ
  pub pixel_count : ℕ
  pub escapa_blackout : Bool

pub record OutputConfig (A F : Type 0) : Type 0 where
  pub protocol : OutputProtocol
  pub alvos : List (Alvo A)
  pub pixel_count : ℕ
  pub color : ColorFormat
  pub pixels_per_universe : ℕ
  pub ports : ℕ
  pub max_pixels : ℕ
  pub transport : Transport
  pub calibration : Calibration F
  pub supports_discovery : Bool

-- Every error of the sharing is one of the configuration.
unfoldable pub repartir : ℕ → ℕ → ℕ → Result ConfigError (List Fatia)
unfolding share_out
repartir total max_por_no n = elim (share_out total max_por_no n recusa) [
  | ok fatias ↦ ok fatias
  | err e ↦ err (not_shared e)
]

unfoldable pub drivers_disponiveis : Available
unfolding to_protocol
drivers_disponiveis = record {
  interfaces = ethernet ∷ wi_fi ∷ [];
  protocols = map to_protocol all_protocols;
}

abbrev pub shifted : Option ℕ → Option ℕ
shifted none = none
shifted (some j) = some (suc j)

-- `iter().zip(fatias)` and the closure.
unfoldable pub alvos_of : {A : Type 0} → List (A × ℕ) → List Fatia → List (Alvo A)
alvos_of ((addr, first_universe) ∷ base) (f ∷ fatias) =
    record {
      addr = addr;
      first_universe = first_universe;
      pixel_offset = f.pixel_offset;
      pixel_count = f.pixel_count;
      escapa_blackout = false;
    }
    ∷ alvos_of base fatias
alvos_of _ _ = []

abbrev pub refuse_if : Bool → ConfigError → Result ConfigError (Unit {0})
refuse_if c e = if c then err e else ok tt

-- `ValidationReport::warnings`.
abbrev pub warnings : List Finding → List Finding
warnings [] = []
warnings (f ∷ fs) = let rest = warnings fs in if is_error (severity f) then rest else f ∷ rest

abbrev pub order_of : ColorFormat → RgbOrder
order_of (ColorFormat.rgb o) = o
order_of (rgbw o w) = o

module _ {A : Type 0} (net : SocketAddr A) where
  unfoldable pub position_of : A → List A → Option ℕ
  position_of a [] = none
  position_of a (b ∷ bs) = if net.same_addr b a then some 0 else shifted (position_of a bs)

  -- The loop over the addresses: those before the place `i`, and those from it on.
  unfoldable pub check_repeats : ℕ → List A → List A → Result ConfigError (Unit {0})
  unfolding position_of
  check_repeats i before [] = ok tt
  check_repeats i before (a ∷ rest) = elim (position_of a before) [
    | some j ↦ err (repeated_address j i)
    | none ↦ check_repeats (suc i) (before ++ a ∷ []) rest
  ]

  abbrev pub none_given : List A → Result ConfigError (Unit {0})
  none_given [] = err no_address
  none_given (a ∷ rest) = ok tt

  abbrev pub addr_of : A × ℕ → A
  addr_of (a, u) = a

  -- The loop over the specs; the first error ends it.
  unfoldable pub enderecos : List (List ℕ) → OutputProtocol → Result ConfigError (List (A × ℕ))
  unfolding um_endereco
  enderecos [] protocol = ok []
  enderecos (spec ∷ specs) protocol = do
    alvo ← um_endereco net.parse_addr spec protocol
    alvos ← enderecos specs protocol
    ok (alvo ∷ alvos)

  module _ {F : Type 0} (is_positive in_unit : F → Bool) where
    unfoldable pub from_profile_muitos :
        HardwareProfile F → List (A × ℕ) → ℕ → Result ConfigError (OutputConfig A F)
    unfolding check_repeats validate has_errors heartbeat_is_safe repartir alvos_of from_protocol
        drivers_disponiveis
    from_profile_muitos profile alvos_base pixel_count =
        let addrs = map addr_of alvos_base in
        let found = validate is_positive in_unit profile drivers_disponiveis in
        do
          given ← none_given addrs
          apart ← check_repeats 0 [] addrs
          valid ← refuse_if (has_errors found) (invalid_profile found)
          some_pixels ← refuse_if (pixel_count == 0) no_pixels
          safe ←
              refuse_if (not (heartbeat_is_safe profile.transport))
                (unsafe_heartbeat profile.transport.heartbeat_ms)
          fatias ← repartir pixel_count profile.limits.max_pixels (length addrs)
          ok (record {
            protocol = from_protocol profile.capabilities.protocol;
            alvos = alvos_of alvos_base fatias;
            pixel_count = pixel_count;
            color = profile.capabilities.color;
            pixels_per_universe = profile.limits.pixels_per_universe;
            ports = profile.capabilities.ports;
            max_pixels = profile.limits.max_pixels;
            transport = profile.transport;
            calibration = profile.calibration;
            supports_discovery = profile.capabilities.supports_discovery;
          })

    unfoldable pub resolve_muitos :
        HardwareProfile F → List (List ℕ) → ℕ → Result ConfigError (OutputConfig A F)
    unfolding enderecos from_profile_muitos
    resolve_muitos profile specs pixel_count = do
      alvos ← enderecos specs (from_protocol profile.capabilities.protocol)
      from_profile_muitos profile alvos pixel_count

    unfoldable pub resolve : HardwareProfile F → List ℕ → ℕ → Result ConfigError (OutputConfig A F)
    unfolding resolve_muitos
    resolve profile spec pixel_count = resolve_muitos profile (spec ∷ []) pixel_count

    unfoldable pub from_profile :
        HardwareProfile F → A → ℕ → ℕ → Result ConfigError (OutputConfig A F)
    unfolding from_profile_muitos
    from_profile profile addr pixel_count first_universe =
        from_profile_muitos profile ((addr, first_universe) ∷ []) pixel_count

    unfoldable pub avisos_do_profile : HardwareProfile F → List Finding
    unfolding validate severity drivers_disponiveis
    avisos_do_profile profile = warnings (validate is_positive in_unit profile drivers_disponiveis)

  abbrev pub all_loopback : List (Alvo A) → Bool
  all_loopback [] = true
  all_loopback (a ∷ rest) = net.is_loopback a.addr && all_loopback rest

  unfoldable pub todos_loopback : {F : Type 0} → OutputConfig A F → Bool
  todos_loopback cfg = all_loopback cfg.alvos

module _ {A F : Type 0} (cfg : OutputConfig A F) where
  -- The first target; `none` is a panic.
  abbrev pub primeiro : Option (Alvo A)
  primeiro = get_elem? cfg.alvos 0

  -- `pixel_count as u32`.
  unfoldable pub compilar_layout : Alvo A → Result CompileError (Option CompiledLayout)
  unfolding compile_layout_de
  compilar_layout alvo =
      compile_layout_de
        (record {
          ports = cfg.ports;
          pixels_per_universe = cfg.pixels_per_universe;
          max_pixels = cfg.max_pixels;
          color = cfg.color;
        })
        (u32 alvo.pixel_count) 1 alvo.first_universe

  unfoldable pub rgb_order : RgbOrder
  rgb_order = order_of cfg.color

  unfoldable pub datagram_pixels : ℕ
  unfolding pixels_per_datagram to_protocol
  datagram_pixels =
      pixels_per_datagram cfg.transport (to_protocol cfg.protocol) cfg.color cfg.pixels_per_universe

  unfoldable pub datagrams_per_frame : ℕ
  unfolding datagrams_for to_protocol
  datagrams_per_frame =
      datagrams_for cfg.transport (u32 cfg.pixel_count) (to_protocol cfg.protocol) cfg.color
        cfg.pixels_per_universe
