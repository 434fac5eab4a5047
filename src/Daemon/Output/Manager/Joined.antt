-- ===== src/Daemon/Output/Manager/Joined.antt =====
-- `OutputManager` from its configuration to the frames of its nodes.
use led_platform.Prelude.{
  Option, length-map, none, some, subst, Bool, ◌==◌, ◌∙◌, All, false, replicate, take-append-drop,
  List, [], arith, drop, length, map, refl, suc, sym, zero, ℕ, ◌+◌, ◌∷◌, ◌≡◌, ◌≤◌,
}
use led_platform.Color.{PixelColor}
use led_platform.Hal.Calibration.{CalibrationLut}
use led_platform.Hal.Output.{OutputError}
use led_platform.Daemon.Output.Config.{Alvo}
use led_platform.Daemon.Output.Wired.{Chains}
use led_platform.Daemon.Output.Manager.{LogicalFrame, ProtocolOutput, Saida, OutputManager, black}
use led_platform.Daemon.Output.Manager.Send.{with_lut, map_color, enviar_from, enviar, send}
use led_platform.Daemon.Output.Manager.Delivery.{
  Answered, slice_of, corrected, concat, first_error, AreSized, framed, IsReady, answer,
  enviar_from-answers, correct_into-resize,
}

Chains-le :
    {A : Type 0} (as_ : List (Alvo A)) (offset limit total : ℕ)
    → Chains offset limit total as_
    → offset ≤ total
Chains-le [] offset limit total h = omega arith
Chains-le (a ∷ as_) offset limit total (p, q, r, h) =
    omega (arith, Chains-le as_ (offset + a.pixel_count) limit total h)

drop-all : {A : Type 0} (n : ℕ) (xs : List A) → length xs ≤ n → drop n xs ≡ []
drop-all zero [] le = refl
drop-all zero (x ∷ xs) le = absurd (omega arith)
drop-all (suc n) [] le = refl
drop-all (suc n) (x ∷ xs) le = drop-all n xs (omega arith)

drop-nil : {A : Type 0} (n : ℕ) → drop {A = A} n [] ≡ []
drop-nil zero = refl
drop-nil (suc n) = refl

drop-drop : {A : Type 0} (n m : ℕ) (xs : List A) → drop m (drop n xs) ≡ drop (n + m) xs
drop-drop zero m xs = let e : zero + m ≡ m = omega arith in rw e refl
drop-drop {A} (suc n) m [] = drop-nil m ∙ sym (drop-nil {A = A} (suc n + m))
drop-drop (suc n) m (x ∷ xs) =
    let e : suc n + m ≡ suc (n + m) = omega arith in rw e (drop-drop n m xs)

-- The slices of a chain are the pixels from its start on.
slices-joined :
    {A : Type 0} (pixels : List PixelColor) (as_ : List (Alvo A)) (offset limit : ℕ)
    → Chains offset limit (length pixels) as_
    → concat (map (slice_of pixels) as_) ≡ drop offset pixels
slices-joined pixels [] offset limit h = sym (drop-all offset pixels (omega arith))
slices-joined pixels (a ∷ as_) offset limit (p, q, r, h) =
    rw
      (
        slices-joined pixels as_ (offset + a.pixel_count) limit h,
        p,
        sym (drop-drop offset a.pixel_count pixels),
      )
      (take-append-drop a.pixel_count (drop offset pixels))

-- What `open` leaves and every call keeps: the buffers have their sizes, and the targets share the
-- show out.
abbrev pub IsOpen : {A F O : Type 0} → ℕ → ℕ → OutputManager A F O → Type 0
IsOpen limit total m =
    (k : ℕ) × (m.preto ≡ replicate k black)
    × AreSized k m.saidas
    × Chains 0 limit total (map (λ s. s.alvo) m.saidas)

module _ {A O : Type 0} (output : ProtocolOutput O) (blackout : Bool) (k : ℕ)
    (frame : LogicalFrame) where
  many-IsReady :
      (limit offset : ℕ) (ss : List (Saida A O))
      → AreSized k ss
      → Chains offset limit (length frame.pixels) (map (λ s. s.alvo) ss)
      → All (IsReady output blackout k frame false) ss
  many-IsReady limit offset [] sized chain = tt
  many-IsReady limit offset (s ∷ ss) (e, fits, sized) (p, q, r, chain) = (
    (
      e,
      fits,
      q,
      omega (
        arith,
        Chains-le (map (λ s. s.alvo) ss) (offset + s.alvo.pixel_count) limit (length frame.pixels)
            chain,
      ),
      (λ false_is. cc),
    ),
    many-IsReady limit (offset + s.alvo.pixel_count) ss sized chain,
  )

  All-IsReady :
      (limit : ℕ) (ss : List (Saida A O))
      → AreSized k ss
      → Chains 0 limit (length frame.pixels) (map (λ s. s.alvo) ss)
      → All (IsReady output blackout k frame (length ss == 1)) ss
  All-IsReady limit [] sized chain = tt
  All-IsReady limit (s ∷ []) (e, fits, sized) (p, q, r, chain) =
      ((e, fits, q, omega arith, (λ alone. (p, omega arith))), tt)
  All-IsReady limit (s ∷ t ∷ ss) sized chain =
      let many : (suc (suc (length ss)) == 1) ≡ false = ground arith in
      subst (λ b. All (IsReady output blackout k frame b) (s ∷ t ∷ ss)) (sym many)
        (many-IsReady limit 0 (s ∷ t ∷ ss) sized chain)

length-corrected :
    (lut : Option CalibrationLut) (pixels : List PixelColor)
    → length (corrected lut pixels) ≡ length pixels
length-corrected none pixels = refl
length-corrected (some lut) pixels = length-map pixels (map_color lut)

module _ {A F O : Type 0} (output : ProtocolOutput O) where
  enviar-Answered :
      (limit : ℕ) (m : OutputManager A F O) (frame : LogicalFrame)
      → (w : IsOpen limit (length frame.pixels) m)
      → Answered output m.blackout w.0 frame none m.saidas
          (enviar_from output m.blackout (length m.saidas == 1) m.preto frame m.saidas m.stats none)
  enviar-Answered limit m frame (k, black_too, sized, chain) =
      subst
        (λ preto.
          Answered output m.blackout k frame none m.saidas (
            enviar_from output m.blackout (length m.saidas == 1) preto frame m.saidas m.stats none))
        (sym black_too)
        (enviar_from-answers output m.blackout k frame (length m.saidas == 1) m.saidas m.stats none
          (All-IsReady output m.blackout k frame limit m.saidas sized chain))

  -- What a call of `send` comes to, over a description of it with no loop and no buffer.
  abbrev pub Sends :
      ℕ → OutputManager A F O → LogicalFrame → OutputManager A F O × Option OutputError → Type 0
  Sends limit m shown (m', r) =
      (map (λ s. s.out) m'.saidas ≡ map (λ s. (answer output m.blackout shown s).0) m.saidas)
      × (r ≡ first_error (map (λ s. (answer output m.blackout shown s).1) m.saidas))
      × (m'.blackout ≡ m.blackout)
      × (map (λ s. s.alvo) m'.saidas ≡ map (λ s. s.alvo) m.saidas)
      × IsOpen limit (length shown.pixels) m'

  enviar-Sends :
      (limit : ℕ) (m : OutputManager A F O) (frame : LogicalFrame)
      → IsOpen limit (length frame.pixels) m
      → Sends limit m frame (enviar output m frame)
  unfolding enviar
  enviar-Sends limit m frame (k, black_too, sized, chain) =
      let (outs, alvos, sizes, first) =
        enviar-Answered limit m frame (k, black_too, sized, chain) in
      (
        outs,
        first,
        refl,
        alvos,
        (k, black_too, sizes, subst (Chains 0 limit (length frame.pixels)) (sym alvos) chain),
      )

  with_lut-Sends :
      (limit : ℕ) (m : OutputManager A F O) (frame : LogicalFrame) (lut : Option CalibrationLut)
      → IsOpen limit (length frame.pixels) m
      → Sends limit m (framed frame (corrected lut frame.pixels)) (with_lut output m frame lut)
  unfolding with_lut
  with_lut-Sends limit m frame none w = enviar-Sends limit m frame w
  with_lut-Sends limit m frame (some lut) (k, black_too, sized, chain) =
      let e = correct_into-resize lut m.corrigidos frame.pixels in
      let l : length (map (map_color lut) frame.pixels) ≡ length frame.pixels =
        length-map frame.pixels (map_color lut) in
      subst
        (λ px.
          Sends limit m (framed frame (map (map_color lut) frame.pixels))
            (enviar output (record m { corrigidos = px }) (framed frame px)))
        (sym e)
        (enviar-Sends limit (record m { corrigidos = map (map_color lut) frame.pixels })
          (framed frame (map (map_color lut) frame.pixels))
          (
            k,
            black_too,
            sized,
            subst (λ n. Chains 0 limit n (map (λ s. s.alvo) m.saidas)) (sym l) chain,
          ))

  -- If the targets of a manager share the pixels of a frame out, then after `send` every node is
  -- as its driver leaves it on being handed its own pixels of the frame, corrected by the table
  -- where there is one, or, while the blackout is on and the target does not escape it, as many
  -- black pixels; the slices of all the targets put together are the corrected frame; the result
  -- is the first error among the nodes' answers, and no node's error changes what another is
  -- handed; and the manager goes on sharing such frames out, with the blackout as it was.
  pub send-Sends :
      (limit : ℕ) (m : OutputManager A F O) (frame : LogicalFrame)
      → IsOpen limit (length frame.pixels) m
      → let shown = corrected m.lut frame.pixels in
        Sends limit m (framed frame shown) (send output m frame)
        × (concat (map (slice_of shown) (map (λ s. s.alvo) m.saidas)) ≡ shown)
  unfolding send with_lut
  send-Sends limit m frame w =
      let shown = corrected m.lut frame.pixels in
      (
        with_lut-Sends limit m frame m.lut w,
        slices-joined shown (map (λ s. s.alvo) m.saidas) 0 limit (
            subst (λ n. Chains 0 limit n (map (λ s. s.alvo) m.saidas))
              (sym (length-corrected m.lut frame.pixels)) w.3),
      )
