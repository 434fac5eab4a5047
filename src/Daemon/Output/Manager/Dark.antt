-- ===== src/Daemon/Output/Manager/Dark.antt =====
-- The blackout of `OutputManager`: while it is on, the nodes are handed nothing but black.
use led_platform.Prelude.{
  none, refl, some, Bool, List, Option, [], ap, arith, false, if◌then◌else◌, length,
  length-replicate, min, not, replicate, subst, sym, true, ℕ, ◌&&◌, ◌==◌, ◌∙◌, ◌∷◌, ◌≡◌,
}
use led_platform.Hal.Calibration.{CalibrationLut}
use led_platform.Hal.Output.{OutputError}
use led_platform.Daemon.Output.Manager.{
  LogicalFrame, ProtocolOutput, OutputStats, Saida, OutputManager, black, blackout_accionar,
}
use led_platform.Daemon.Output.Manager.Send.{
  handed, enviar_from, enviar, send, with_lut, sent_to, resize, correct_into,
}
use led_platform.Daemon.Output.Manager.Delivery.{take-replicate}
use led_platform.Daemon.Output.Manager.Calls.{Call, frames, acciona, levanta, after_calls}

-- No call lifts the blackout.
abbrev pub NoneLifts : List Call → Type 0
NoneLifts [] = Unit
NoneLifts (frames f ∷ cs) = NoneLifts cs
NoneLifts (acciona ∷ cs) = NoneLifts cs
NoneLifts (levanta ∷ cs) = ⊥

handed-black :
    {A O : Type 0} (sole : Bool) (k : ℕ) (frame : LogicalFrame) (s : Saida A O)
    → (n : ℕ) × ((handed true sole (replicate k black) frame s).0
        ≡ record { pixels = replicate n black; timestamp_ms = frame.timestamp_ms })
unfolding handed
handed-black sole k frame s =
    let n =
      min (if sole then length frame.pixels else s.alvo.pixel_count) (length (replicate k black)) in
    (
      n,
      ap (λ px. record { pixels = px; timestamp_ms = frame.timestamp_ms })
          (take-replicate n k black (omega (arith, length-replicate {0} k black))),
    )

module _ {O : Type 0} (output : ProtocolOutput O) (P : O → Type 0) where
  -- A node with the property has it after any number of black pixels, whatever it answers.
  abbrev pub KeptByBlack : Type 0
  KeptByBlack =
      (o : O) (n t : ℕ)
      → P o
      → P (output.send_frame o (record { pixels = replicate n black; timestamp_ms = t })).0

module _ {A O : Type 0} (P : O → Type 0) where
  abbrev pub AllDark : List (Saida A O) → Type 0
  AllDark [] = Unit
  AllDark (s ∷ ss) = P s.out × (s.alvo.escapa_blackout ≡ false) × AllDark ss

  abbrev pub IsDark : {F : Type 0} → OutputManager A F O → Type 0
  IsDark m = (m.blackout ≡ true) × ((k : ℕ) × (m.preto ≡ replicate k black)) × AllDark m.saidas

module _ {A O : Type 0} (output : ProtocolOutput O) (P : O → Type 0) where
  enviar_from-AllDark :
      KeptByBlack output P
      → (alone : Bool) (k : ℕ) (frame : LogicalFrame) (ss : List (Saida A O)) (stats : OutputStats)
        (primeiro : Option OutputError)
      → AllDark P ss
      → AllDark P (enviar_from output true alone (replicate k black) frame ss stats primeiro).saidas
  unfolding enviar_from
  enviar_from-AllDark keeps alone k frame [] stats primeiro h = tt
  enviar_from-AllDark keeps alone k frame (s ∷ ss) stats primeiro (p, esc, h) =
      let apagar = true && not s.alvo.escapa_blackout in
      let sole = alone && s.alvo.pixel_offset == 0 in
      let (f, buf) = handed apagar sole (replicate k black) frame s in
      let (s', stats', primeiro') = sent_to s buf stats primeiro (output.send_frame s.out f) in
      let (n, e) = handed-black sole k frame s in
      let on : apagar ≡ true = ground arith in
      let e' : f ≡ record { pixels = replicate n black; timestamp_ms = frame.timestamp_ms } =
        ap (λ b. (handed b sole (replicate k black) frame s).0) on ∙ e in
      (
        subst (λ g. P (output.send_frame s.out g).0) (sym e') (keeps s.out n frame.timestamp_ms p),
        esc,
        enviar_from-AllDark keeps alone k frame ss stats' primeiro' h,
      )

module _ {A F O : Type 0} (output : ProtocolOutput O) (P : O → Type 0) where
  enviar-IsDark :
      KeptByBlack output P
      → (m : OutputManager A F O) (frame : LogicalFrame) → IsDark P m
      → IsDark P (enviar output m frame).0
  unfolding enviar
  enviar-IsDark keeps m frame (on, (k, black_too), h) =
      let dark =
        enviar_from-AllDark output P keeps (length m.saidas == 1) k frame m.saidas m.stats none h in
      (
        on,
        (k, black_too),
        subst
            (λ b.
              AllDark P
                (enviar_from output b (length m.saidas == 1) m.preto frame m.saidas m.stats
                  none).saidas)
            (sym on)
            (subst
              (λ preto.
                AllDark P
                  (enviar_from output true (length m.saidas == 1) preto frame m.saidas m.stats
                    none).saidas)
              (sym black_too) dark),
      )

  with_lut-IsDark :
      KeptByBlack output P
      → (m : OutputManager A F O) (frame : LogicalFrame) (lut : Option CalibrationLut) → IsDark P m
      → IsDark P (with_lut output m frame lut).0
  unfolding with_lut
  with_lut-IsDark keeps m frame none h = enviar-IsDark keeps m frame h
  with_lut-IsDark keeps m frame (some lut) h =
      let buf = correct_into lut (resize m.corrigidos (length frame.pixels)) frame.pixels in
      enviar-IsDark keeps (record m { corrigidos = buf })
        (record { pixels = buf; timestamp_ms = frame.timestamp_ms }) h

  -- Once the blackout is on, and as long as no call lifts it, whatever frames are sent, of
  -- whatever length, and whatever the nodes answer, a property of the nodes that black pixels keep
  -- goes on holding of every node, where no target escapes the blackout and the black buffer is
  -- black: the nodes are handed nothing else.
  pub after_calls-IsDark :
      KeptByBlack output P
      → (m : OutputManager A F O) (cs : List Call) → NoneLifts cs
      → IsDark P m
      → IsDark P (after_calls output m cs)
  unfolding after_calls send
  after_calls-IsDark keeps m [] none_lifts h = h
  after_calls-IsDark keeps m (frames f ∷ cs) none_lifts h =
      after_calls-IsDark keeps (send output m f).0 cs none_lifts (with_lut-IsDark keeps m f m.lut h)
  after_calls-IsDark keeps m (acciona ∷ cs) none_lifts (on, buffer, h) =
      after_calls-IsDark keeps (blackout_accionar m).0 cs none_lifts (refl, buffer, h)
  after_calls-IsDark keeps m (levanta ∷ cs) none_lifts h = elim none_lifts [ ]
