-- ===== src/Daemon/Output/Manager/Opened.antt =====
-- `OutputManager::open` on a configuration that `resolve_muitos` accepts.
use led_platform.Prelude.{
  Bool, List, [], ap, arith, false, length, length-replicate, map, max, ok, refl, replicate, subst,
  sym, ℕ, ◌*◌, ◌<◌, ◌∷◌, ◌≡◌, ◌≤◌,
}
use led_platform.Prelude.{bind_inverse}
use led_platform.Hal.Calibration.{CalibrationLut}
use led_platform.Hardware.Profile.{HardwareProfile}
use led_platform.Daemon.Output.Config.{SocketAddr, Alvo, OutputConfig, resolve_muitos}
use led_platform.Daemon.Output.Wired.{Chains, resolve_muitos-Chains}
use led_platform.Daemon.Output.Manager.{
  Saida, OutputManager, black, Drivers, open_alvo, open_alvos, open_manager, maior_fatia, no_stats,
}
use led_platform.Daemon.Output.Manager.Delivery.{AreSized}
use led_platform.Daemon.Output.Manager.Joined.{IsOpen}

AreSized-mono :
    {A O : Type 0} (n m : ℕ) (ss : List (Saida A O)) → n ≤ m → AreSized n ss → AreSized m ss
AreSized-mono n m [] le h = tt
AreSized-mono n m (s ∷ ss) le (e, fits, h) = (e, omega arith, AreSized-mono n m ss le h)

module _ {A F O : Type 0} (drivers : Drivers A O) where
  open_alvos-Opens :
      (cfg : OutputConfig A F) (alvos : List (Alvo A)) (ss : List (Saida A O))
      → open_alvos drivers cfg alvos ≡ ok ss
      → (map (λ s. s.alvo) ss ≡ alvos) × AreSized (maior_fatia ss) ss
  unfolding open_alvos
  open_alvos-Opens cfg [] ss e = let none_left : ss ≡ [] = ground arith in rw none_left (refl, tt)
  open_alvos-Opens cfg (alvo ∷ alvos) ss e =
      let (out, p, rest) = bind_inverse (open_alvo drivers cfg cfg.protocol alvo) _ e in
      let (ss', q, last) = bind_inverse (open_alvos drivers cfg alvos) _ rest in
      let (same, sized) = open_alvos-Opens cfg alvos ss' q in
      let s : Saida A O = record {
        out = out;
        alvo = alvo;
        fatia = replicate alvo.pixel_count black;
        stats = no_stats;
      } in
      let made : ss ≡ s ∷ ss' = ground arith in
      subst (λ l. (map (λ s. s.alvo) l ≡ alvo ∷ alvos) × AreSized (maior_fatia l) l) (sym made)
        (
          ap (◌∷◌ alvo) same,
          (
            length-replicate alvo.pixel_count black,
            omega arith,
            AreSized-mono (maior_fatia ss') (max alvo.pixel_count (maior_fatia ss')) ss'
                (omega arith) sized,
          ),
        )

  module _ (is_one : F → Bool) (make_lut : F → F → CalibrationLut) where
    open_manager-IsOpen :
        (cfg : OutputConfig A F) (m : OutputManager A F O) (limit total : ℕ)
        → Chains 0 limit total cfg.alvos
        → open_manager drivers is_one make_lut cfg ≡ ok m
        → IsOpen limit total m × (map (λ s. s.alvo) m.saidas ≡ cfg.alvos) × (m.blackout ≡ false)
    unfolding open_manager
    open_manager-IsOpen cfg m limit total chain e =
        let (ss, p, last) = bind_inverse (open_alvos drivers cfg cfg.alvos) _ e in
        let (same, sized) = open_alvos-Opens cfg cfg.alvos ss p in
        let saidas : m.saidas ≡ ss = ground arith in
        let k = max (maior_fatia ss) cfg.pixel_count in
        let preto : m.preto ≡ replicate k black = ground arith in
        let off : m.blackout ≡ false = ground arith in
        (
          (
            k,
            preto,
            subst (AreSized k) (sym saidas)
                (AreSized-mono (maior_fatia ss) k ss (omega arith) sized),
            subst (λ l. Chains 0 limit total (map (λ s. s.alvo) l)) (sym saidas)
                (subst (Chains 0 limit total) (sym same) chain),
          ),
          subst (λ l. map (λ s. s.alvo) l ≡ cfg.alvos) (sym saidas) same,
          off,
        )

    module _ (net : SocketAddr A) (is_positive in_unit : F → Bool) where
      -- If `resolve_muitos` accepts specs for a show of `pixel_count` pixels, the limit of a node
      -- times the number of specs is below 2^32, and `open` opens an output for every target, then
      -- the outputs have the configuration's targets in their order, share every frame of that
      -- many pixels out without a gap or an overlap, have buffers of their sizes, and the blackout
      -- is off.
      pub resolve_muitos-open_manager :
          (profile : HardwareProfile F) (specs : List (List ℕ)) (pixel_count : ℕ)
          (cfg : OutputConfig A F) (m : OutputManager A F O)
          → profile.limits.max_pixels * length specs < 4294967296
          → resolve_muitos net is_positive in_unit profile specs pixel_count ≡ ok cfg
          → open_manager drivers is_one make_lut cfg ≡ ok m
          → IsOpen profile.limits.max_pixels pixel_count m
            × (map (λ s. s.alvo) m.saidas ≡ cfg.alvos)
            × (m.blackout ≡ false)
      resolve_muitos-open_manager profile specs pixel_count cfg m w resolved opened =
          let (read, apart, chain, count) =
            resolve_muitos-Chains net is_positive in_unit profile specs pixel_count cfg w
              resolved in
          open_manager-IsOpen cfg m profile.limits.max_pixels pixel_count chain opened
