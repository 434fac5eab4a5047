-- ===== src/Daemon/Output/Wired.antt =====
-- What a configuration that `resolve_muitos` accepts is like.
use led_platform.Hardware.Transport.{heartbeat_is_safe}
use led_platform.Hardware.Validate.{has_errors, validate}
use led_platform.Prelude.{
  length-map, not, ◌==◌, Bool, ap, map, All, All-always, All-append_last, All-append_left, All-both,
  Bool-cases, Option-cases, Option, bind_inverse, length, none, some, List, [], arith, false, inl,
  inr, min, mul_mono, ok, refl, subst, suc, sym, true, zero, ℕ, ◌*◌, ◌++◌, ◌+◌, ◌-◌, ◌<◌, ◌∷◌, ◌≡◌,
  ◌≤◌, ◌⊎◌,
}
use led_platform.Hardware.Profile.{HardwareProfile}
use led_platform.Hardware.Repartition.{Fatia, repartir as share_out, recusa, fatias_from}
use led_platform.Hardware.Shares.{fatias_from-inversion, fatias_from-IsShared}
use led_platform.Daemon.Output.Protocol.{OutputProtocol, faixa_de_universos, from_protocol}
use led_platform.Daemon.Output.Spec.{
  unsafe_heartbeat, no_pixels, invalid_profile, rsplit_once, scheme_mark, split_once, scheme_of,
  um_endereco, pick_universe, check_scheme, read_universe, parsed_address, with_port,
}
use led_platform.Daemon.Output.Config.{
  drivers_disponiveis, refuse_if, none_given, SocketAddr, Alvo, OutputConfig, repartir, alvos_of,
  position_of, check_repeats, enderecos, from_profile_muitos, resolve_muitos, addr_of,
}

-- Slices without a gap from `offset` to `total`, none empty and none over the limit.
abbrev SlicesChain : ℕ → ℕ → ℕ → List Fatia → Type 0
SlicesChain offset limit total [] = offset ≡ total
SlicesChain offset limit total (f ∷ fs) =
    (f.pixel_offset ≡ offset)
    × (0 < f.pixel_count)
    × (f.pixel_count ≤ limit)
    × SlicesChain (offset + f.pixel_count) limit total fs

abbrev pub Chains : {A : Type 0} → ℕ → ℕ → ℕ → List (Alvo A) → Type 0
Chains offset limit total [] = offset ≡ total
Chains offset limit total (a ∷ as_) =
    (a.pixel_offset ≡ offset)
    × (0 < a.pixel_count)
    × (a.pixel_count ≤ limit)
    × Chains (offset + a.pixel_count) limit total as_

kept : {n : ℕ} → (0 < n) ⊎ (true ≡ false) → 0 < n
kept (inl p) = p
kept (inr e) = cc

fatias_from-SlicesChain :
    (n i total tecto unidades : ℕ) (fs : List Fatia)
    → (i + suc n) * tecto < 4294967296
    → total ≤ (i + suc n) * tecto
    → fatias_from (suc n) i total tecto unidades recusa ≡ ok fs
    → SlicesChain (i * tecto) tecto total fs × (i * tecto < total)
fatias_from-SlicesChain zero i total tecto unidades fs w le e =
    let (gs, r, p, q) = fatias_from-inversion 0 i total tecto unidades recusa fs (omega arith) e in
    let pos = kept q in
    let r' : gs ≡ [] = unfold fatias_from in ground arith in
    (rw (p, r') (refl, pos, omega arith, omega arith), omega arith)
fatias_from-SlicesChain (suc n) i total tecto unidades fs w le e =
    let (gs, r, p, q) =
      fatias_from-inversion (suc n) i total tecto unidades recusa fs
        (omega (arith, mul_mono i (i + suc (suc n)) tecto)) e in
    let pos = kept q in
    let (chain, further) =
      fatias_from-SlicesChain n (suc i) total tecto unidades gs (omega arith) (omega arith) r in
    let next : i * tecto + min (total - i * tecto) tecto ≡ suc i * tecto = omega arith in
    (
      rw p (refl, pos, omega arith, subst (λ o. SlicesChain o tecto total gs) (sym next) chain),
      omega arith,
    )

-- The loop's slices are those of the targets.
alvos_of-Chains :
    {A : Type 0} (base : List (A × ℕ)) (fs : List Fatia) (offset limit total : ℕ)
    → length base ≡ length fs
    → SlicesChain offset limit total fs
    → Chains offset limit total (alvos_of base fs)
unfolding alvos_of
alvos_of-Chains [] [] offset limit total e h = h
alvos_of-Chains [] (f ∷ fs) offset limit total e h = absurd (omega arith)
alvos_of-Chains (b ∷ base) [] offset limit total e h = absurd (omega arith)
alvos_of-Chains ((a, u) ∷ base) (f ∷ fs) offset limit total e (p, q, r, h) =
    (p, q, r, alvos_of-Chains base fs (offset + f.pixel_count) limit total (omega arith) h)

length-fatias_from :
    (n i total tecto unidades : ℕ) (fs : List Fatia)
    → (i + n) * tecto < 4294967296
    → fatias_from n i total tecto unidades recusa ≡ ok fs
    → length fs ≡ n
length-fatias_from n i total tecto unidades fs w e =
    let (shared, same, sum) = fatias_from-IsShared n i total tecto unidades recusa fs w e in same

repartir-SlicesChain :
    (total tecto n : ℕ) (fs : List Fatia)
    → tecto * n < 4294967296
    → repartir total tecto n ≡ ok fs
    → SlicesChain 0 tecto total fs × (length fs ≡ n)
unfolding repartir share_out
repartir-SlicesChain total tecto zero fs w e = ground arith
repartir-SlicesChain total tecto (suc n) fs w e =
    let r : fatias_from (suc n) 0 total tecto (suc n) recusa ≡ ok fs = ground arith in
    let fits : total ≤ tecto * suc n = ground arith in
    (
      subst (λ o. SlicesChain o tecto total fs) (omega arith)
          (fatias_from-SlicesChain n 0 total tecto (suc n) fs (omega arith) (omega arith) r).0,
      length-fatias_from (suc n) 0 total tecto (suc n) fs (omega arith) r,
    )

-- The universes of a protocol, and 0 for a protocol that has none.
abbrev pub InRange : Option (ℕ × ℕ) → ℕ → Type 0
InRange none u = u ≡ 0
InRange (some (lowest, highest)) u = (lowest ≤ u) × (u ≤ highest)

pick_universe-InRange :
    {A : Type 0} (addr : A) (range : Option (ℕ × ℕ)) (universe : Option ℕ) (a : A) (u : ℕ)
    → pick_universe addr range universe ≡ ok (a, u)
    → InRange range u
unfolding pick_universe
pick_universe-InRange addr none none a u e = ground arith
pick_universe-InRange addr none (some w) a u e = absurd (ground arith)
pick_universe-InRange addr (some r) none a u e = absurd (ground arith)
pick_universe-InRange addr (some (l, h)) (some w) a u e = ground arith

um_endereco-InRange :
    {A : Type 0} (parse_addr : List ℕ → Option A) (spec : List ℕ) (protocol : OutputProtocol)
    (a : A) (u : ℕ)
    → um_endereco parse_addr spec protocol ≡ ok (a, u)
    → InRange (faixa_de_universos protocol) u
unfolding um_endereco
um_endereco-InRange parse_addr spec protocol a u e =
    let (scheme, rest) = scheme_of spec (split_once scheme_mark spec) in
    let (c, p, e') = bind_inverse (check_scheme scheme protocol) _ e in
    let ((address, universe), q, e'') =
      bind_inverse (read_universe rest (rsplit_once b'@' rest)) _ e' in
    let (addr, s, last) =
      bind_inverse (parsed_address (parse_addr (with_port address protocol))) _ e'' in
    pick_universe-InRange addr (faixa_de_universos protocol) universe a u last

module _ {A : Type 0} (net : SocketAddr A) where
  -- No address equals one before it.
  abbrev pub AreApart : List A → Type 0
  AreApart [] = Unit
  AreApart (a ∷ rest) = All (λ b. net.same_addr a b ≡ false) rest × AreApart rest

  position_of-none :
      (a : A) (before : List A)
      → position_of net a before ≡ none
      → All (λ b. net.same_addr b a ≡ false) before
  unfolding position_of
  position_of-none a [] e = tt
  position_of-none a (b ∷ before) e = elim (Bool-cases (net.same_addr b a)) [
    | inl same ↦ absurd (ground arith)
    | inr apart ↦ elim (Option-cases (position_of net a before)) [
      | inl nowhere ↦ (apart, position_of-none a before nowhere)
      | inr (j, there) ↦ absurd (ground arith)
    ]
  ]

  check_repeats-AreApart :
      (i : ℕ) (before rest : List A)
      → check_repeats net i before rest ≡ ok tt
      → All (λ b. All (λ a. net.same_addr b a ≡ false) rest) before × AreApart rest
  unfolding check_repeats
  check_repeats-AreApart i before [] e =
      (All-always (λ b. All (λ a. net.same_addr b a ≡ false) []) (λ b. tt) before, tt)
  check_repeats-AreApart i before (a ∷ rest) e = elim (Option-cases (position_of net a before)) [
    | inl nowhere ↦
        let further : check_repeats net (suc i) (before ++ a ∷ []) rest ≡ ok tt = ground arith in
        let (h, apart) = check_repeats-AreApart (suc i) (before ++ a ∷ []) rest further in
        (
          All-both (λ b. net.same_addr b a ≡ false) (λ b. All (λ c. net.same_addr b c ≡ false) rest)
              (λ b. All (λ c. net.same_addr b c ≡ false) (a ∷ rest)) before (λ b p q. (p, q))
              (position_of-none a before nowhere)
              (All-append_left (λ b. All (λ c. net.same_addr b c ≡ false) rest) before (a ∷ []) h),
          (All-append_last (λ b. All (λ c. net.same_addr b c ≡ false) rest) before a h, apart),
        )
    | inr (j, there) ↦ absurd (ground arith)
  ]

  -- Each target is what its spec reads as, with a universe that the protocol has.
  abbrev pub AllRead : OutputProtocol → List (List ℕ) → List (Alvo A) → Type 0
  AllRead protocol [] [] = Unit
  AllRead protocol (spec ∷ specs) (a ∷ rest) =
      (um_endereco net.parse_addr spec protocol ≡ ok (a.addr, a.first_universe))
      × InRange (faixa_de_universos protocol) a.first_universe
      × (a.escapa_blackout ≡ false)
      × AllRead protocol specs rest
  AllRead protocol _ _ = ⊥

  abbrev ReadsAs : OutputProtocol → List (List ℕ) → List (A × ℕ) → List Fatia → Type 0
  ReadsAs protocol specs base fs =
      AllRead protocol specs (alvos_of base fs)
      × (map (λ a. a.addr) (alvos_of base fs) ≡ map (addr_of net) base)

  cons-ReadsAs :
      (protocol : OutputProtocol) (spec : List ℕ) (specs : List (List ℕ)) (b : A × ℕ)
      (base : List (A × ℕ)) (fs : List Fatia)
      → um_endereco net.parse_addr spec protocol ≡ ok b
      → ((gs : List Fatia) → length base ≡ length gs → ReadsAs protocol specs base gs)
      → suc (length base) ≡ length fs
      → ReadsAs protocol (spec ∷ specs) (b ∷ base) fs
  unfolding alvos_of
  cons-ReadsAs protocol spec specs b base [] p h l = absurd (omega arith)
  cons-ReadsAs protocol spec specs (a, u) base (f ∷ fs) p h l =
      let (read, same) = h fs (omega arith) in
      ((p, um_endereco-InRange net.parse_addr spec protocol a u p, refl, read), ap (◌∷◌ a) same)

  enderecos-ReadsAs :
      (specs : List (List ℕ)) (protocol : OutputProtocol) (base : List (A × ℕ)) (fs : List Fatia)
      → enderecos net specs protocol ≡ ok base
      → length base ≡ length fs
      → ReadsAs protocol specs base fs
  unfolding enderecos alvos_of
  enderecos-ReadsAs [] protocol [] fs e l = (tt, refl)
  enderecos-ReadsAs [] protocol (b ∷ base) fs e l = absurd (ground arith)
  enderecos-ReadsAs (spec ∷ specs) protocol base fs e l =
      let (b, p, rest) = bind_inverse (um_endereco net.parse_addr spec protocol) _ e in
      let (base', q, last) = bind_inverse (enderecos net specs protocol) _ rest in
      let eq : base ≡ b ∷ base' = ground arith in
      subst (λ bs. ReadsAs protocol (spec ∷ specs) bs fs) (sym eq)
        (cons-ReadsAs protocol spec specs b base' fs p
          (λ gs. enderecos-ReadsAs specs protocol base' gs q) (rw eq at l))

  length-enderecos :
      (specs : List (List ℕ)) (protocol : OutputProtocol) (base : List (A × ℕ))
      → enderecos net specs protocol ≡ ok base
      → length base ≡ length specs
  unfolding enderecos
  length-enderecos [] protocol base e = ground arith
  length-enderecos (spec ∷ specs) protocol base e =
      let (b, p, rest) = bind_inverse (um_endereco net.parse_addr spec protocol) _ e in
      let (base', q, last) = bind_inverse (enderecos net specs protocol) _ rest in
      ground (arith, length-enderecos specs protocol base' q)

  module _ {F : Type 0} (is_positive in_unit : F → Bool) where
    from_profile_muitos-inversion :
        (profile : HardwareProfile F) (base : List (A × ℕ)) (pixel_count : ℕ)
        (cfg : OutputConfig A F)
        → from_profile_muitos net is_positive in_unit profile base pixel_count ≡ ok cfg
        → (fs : List Fatia) × (check_repeats net 0 [] (map (addr_of net) base) ≡ ok tt)
          × (repartir pixel_count profile.limits.max_pixels (length (map (addr_of net) base))
              ≡ ok fs)
          × (cfg.alvos ≡ alvos_of base fs)
          × (cfg.pixel_count ≡ pixel_count)
    unfolding from_profile_muitos
    from_profile_muitos-inversion profile base pixel_count cfg e =
        let addrs = map (addr_of net) base in
        let found = validate is_positive in_unit profile drivers_disponiveis in
        let (t₁, q₁, e₁) = bind_inverse (none_given net addrs) _ e in
        let (t₂, q₂, e₂) = bind_inverse (check_repeats net 0 [] addrs) _ e₁ in
        let (t₃, q₃, e₃) =
          bind_inverse (refuse_if (has_errors found) (invalid_profile found)) _ e₂ in
        let (t₄, q₄, e₄) = bind_inverse (refuse_if (pixel_count == 0) no_pixels) _ e₃ in
        let (t₅, q₅, e₅) =
          bind_inverse
            (refuse_if (not (heartbeat_is_safe profile.transport))
              (unsafe_heartbeat profile.transport.heartbeat_ms))
            _ e₄ in
        let (fs, r, last) =
          bind_inverse (repartir pixel_count profile.limits.max_pixels (length addrs)) _ e₅ in
        (fs, q₂, r, ground arith, ground arith)

    -- Where `resolve_muitos` accepts, and the limit of a node times the number of nodes is below
    -- 2^32, there is a target for each spec, in the order of the specs, with the address and the
    -- universe that the spec reads as; the universe is one of the profile's protocol, no address
    -- equals an earlier one, no target is left out of a blackout, and the targets take the pixels
    -- of the show from the first to the last without a gap or an overlap, each one pixel at least
    -- and no more than the limit.
    pub resolve_muitos-Chains :
        (profile : HardwareProfile F) (specs : List (List ℕ)) (pixel_count : ℕ)
        (cfg : OutputConfig A F)
        → profile.limits.max_pixels * length specs < 4294967296
        → resolve_muitos net is_positive in_unit profile specs pixel_count ≡ ok cfg
        → AllRead (from_protocol profile.capabilities.protocol) specs cfg.alvos
          × AreApart (map (λ a. a.addr) cfg.alvos)
          × Chains 0 profile.limits.max_pixels pixel_count cfg.alvos
          × (cfg.pixel_count ≡ pixel_count)
    unfolding resolve_muitos from_profile_muitos
    resolve_muitos-Chains profile specs pixel_count cfg w e =
        let protocol = from_protocol profile.capabilities.protocol in
        let (base, p, made) = bind_inverse (enderecos net specs protocol) _ e in
        let (fs, apart, shared, alvos, count) =
          from_profile_muitos-inversion profile base pixel_count cfg made in
        let same : length (map (addr_of net) base) ≡ length base = length-map base (addr_of net) in
        let wide : length base ≡ length specs = length-enderecos specs protocol base p in
        let (chain, long) =
          repartir-SlicesChain pixel_count profile.limits.max_pixels
            (length (map (addr_of net) base)) fs (rw (same, wide) w) shared in
        let (read, addrs) = enderecos-ReadsAs specs protocol base fs p (omega arith) in
        rw (alvos, addrs)
          (
            read,
            (check_repeats-AreApart 0 [] (map (addr_of net) base) apart).1,
            alvos_of-Chains base fs 0 profile.limits.max_pixels pixel_count (omega arith) chain,
            count,
          )
