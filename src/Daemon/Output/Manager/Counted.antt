-- ===== src/Daemon/Output/Manager/Counted.antt =====
-- The counters of `OutputManager`: of every target, and of them together.
use led_platform.Daemon.Output.Manager.Calls.{
  Call, frames, acciona, levanta, after_calls, frame_count,
}
use led_platform.Prelude.{
  ap, length, ok, refl, replicate, subst, sym, ◌∙◌, Bool, List, Option, [], arith, none, not, some,
  suc, u64, ℕ, ◌&&◌, ◌+◌, ◌==◌, ◌∷◌, ◌≡◌,
}
use led_platform.Color.{PixelColor}
use led_platform.Hal.Output.{OutputError}
use led_platform.Daemon.Output.Config.{Alvo, OutputConfig}
use led_platform.Prelude.{bind_inverse}
use led_platform.Daemon.Output.Manager.{
  blackout_accionar, blackout_levantar, black, CalibrationLut, Drivers, open_alvo, open_alvos,
  open_manager, no_stats, LogicalFrame, ProtocolOutput, OutputStats, Saida, OutputManager,
}
use led_platform.Daemon.Output.Manager.Send.{
  resize, send, correct_into, enviar, with_lut, handed, enviar_from, sent_to, counted,
}

abbrev pub frames_of : {A O : Type 0} → List (Saida A O) → ℕ
frames_of [] = 0
frames_of (s ∷ ss) = s.stats.frames_sent + frames_of ss

abbrev pub errors_of : {A O : Type 0} → List (Saida A O) → ℕ
errors_of [] = 0
errors_of (s ∷ ss) = s.stats.errors + errors_of ss

-- Every target was sent `n` frames: what it took and what it refused.
abbrev pub AllCounted : {A O : Type 0} → ℕ → List (Saida A O) → Type 0
AllCounted n [] = Unit {0}
AllCounted n (s ∷ ss) = (u64 (s.stats.frames_sent + s.stats.errors) ≡ u64 n) × AllCounted n ss

abbrev pub AreCounted : {A F O : Type 0} → ℕ → OutputManager A F O → Type 0
AreCounted n m =
    AllCounted n m.saidas
    × (m.stats.frames_sent ≡ u64 (frames_of m.saidas))
    × (m.stats.errors ≡ u64 (errors_of m.saidas))

-- One answer, counted for its target and for the manager.
counted-both :
    (own all : OutputStats) (r : Option OutputError) (n bf be frames_left errors_left : ℕ)
    → u64 (own.frames_sent + own.errors) ≡ u64 n
    → all.frames_sent ≡ u64 (bf + (own.frames_sent + frames_left))
    → all.errors ≡ u64 (be + (own.errors + errors_left))
    → (u64 ((counted own r).frames_sent + (counted own r).errors) ≡ u64 (suc n))
      × ((counted all r).frames_sent ≡ u64 (bf + (counted own r).frames_sent + frames_left))
      × ((counted all r).errors ≡ u64 (be + (counted own r).errors + errors_left))
counted-both own all none n bf be frames_left errors_left c p q =
    (omega arith, omega arith, omega arith)
counted-both own all (some e) n bf be frames_left errors_left c p q =
    (omega arith, omega arith, omega arith)

module _ {A O : Type 0} (output : ProtocolOutput O) where
  -- The loop counts one frame more of each target, and of the manager what the targets count.
  enviar_from-counted :
      (apagar alone : Bool) (preto : List PixelColor) (frame : LogicalFrame) (n : ℕ)
      (ss : List (Saida A O)) (stats : OutputStats) (primeiro : Option OutputError)
      (before_frames before_errors : ℕ)
      → AllCounted n ss
      → stats.frames_sent ≡ u64 (before_frames + frames_of ss)
      → stats.errors ≡ u64 (before_errors + errors_of ss)
      → let e = enviar_from output apagar alone preto frame ss stats primeiro in
        AllCounted (suc n) e.saidas
        × (e.stats.frames_sent ≡ u64 (before_frames + frames_of e.saidas))
        × (e.stats.errors ≡ u64 (before_errors + errors_of e.saidas))
  unfolding enviar_from
  enviar_from-counted apagar alone preto frame n [] stats primeiro bf be h p q = (tt, p, q)
  enviar_from-counted apagar alone preto frame n (s ∷ ss) stats primeiro bf be (c, h) p q =
      let sole = alone && s.alvo.pixel_offset == 0 in
      let (f, buf) = handed (apagar && not s.alvo.escapa_blackout) sole preto frame s in
      let (out, r) = output.send_frame s.out f in
      let (s', stats', primeiro') = sent_to s buf stats primeiro (out, r) in
      let step = counted-both s.stats stats r n bf be (frames_of ss) (errors_of ss) c p q in
      let (h', p', q') =
        enviar_from-counted apagar alone preto frame n ss stats' primeiro'
          (bf + s'.stats.frames_sent) (be + s'.stats.errors) h step.1 step.2 in
      ((step.0, h'), (omega arith), (omega arith))

module _ {A F O : Type 0} (output : ProtocolOutput O) where
  enviar-AreCounted :
      (n : ℕ) (m : OutputManager A F O) (frame : LogicalFrame)
      → AreCounted n m
      → AreCounted (suc n) (enviar output m frame).0
  unfolding enviar
  enviar-AreCounted n m frame (h, p, q) =
      let (h', p', q') =
        enviar_from-counted output m.blackout (length m.saidas == 1) m.preto frame n m.saidas
          m.stats none 0 0 h (omega arith) (omega arith) in
      (h', omega arith, omega arith)

  with_lut-AreCounted :
      (n : ℕ) (m : OutputManager A F O) (frame : LogicalFrame) (lut : Option CalibrationLut)
      → AreCounted n m
      → AreCounted (suc n) (with_lut output m frame lut).0
  unfolding with_lut
  with_lut-AreCounted n m frame none h = enviar-AreCounted n m frame h
  with_lut-AreCounted n m frame (some lut) h =
      let buf = correct_into lut (resize m.corrigidos (length frame.pixels)) frame.pixels in
      enviar-AreCounted n (record m { corrigidos = buf })
        (record { pixels = buf; timestamp_ms = frame.timestamp_ms }) h

  after_calls-AreCounted :
      (n : ℕ) (m : OutputManager A F O) (cs : List Call)
      → AreCounted n m
      → AreCounted (n + frame_count cs) (after_calls output m cs)
  unfolding after_calls send
  after_calls-AreCounted n m [] h =
      let e : n + 0 ≡ n = omega arith in subst (λ k. AreCounted k m) (sym e) h
  after_calls-AreCounted n m (frames f ∷ cs) h =
      let e : n + suc (frame_count cs) ≡ suc n + frame_count cs = omega arith in
      let m' = (send output m f).0 in
      subst (λ k. AreCounted k (after_calls output m' cs)) (sym e)
        (after_calls-AreCounted (suc n) m' cs (with_lut-AreCounted n m f m.lut h))
  after_calls-AreCounted n m (acciona ∷ cs) h =
      after_calls-AreCounted n (blackout_accionar m).0 cs h
  after_calls-AreCounted n m (levanta ∷ cs) h =
      after_calls-AreCounted n (blackout_levantar m).0 cs h

module _ {A F O : Type 0} (drivers : Drivers A O) where
  open_alvos-AllCounted :
      (cfg : OutputConfig A F) (alvos : List (Alvo A)) (ss : List (Saida A O))
      → open_alvos drivers cfg alvos ≡ ok ss
      → AllCounted 0 ss × (frames_of ss ≡ 0) × (errors_of ss ≡ 0)
  unfolding open_alvos
  open_alvos-AllCounted cfg [] ss e =
      let none_left : ss ≡ [] = ground arith in rw none_left (tt, refl, refl)
  open_alvos-AllCounted cfg (alvo ∷ alvos) ss e =
      let (out, p, rest) = bind_inverse (open_alvo drivers cfg cfg.protocol alvo) _ e in
      let (ss', q, last) = bind_inverse (open_alvos drivers cfg alvos) _ rest in
      let (h, no_frames, no_errors) = open_alvos-AllCounted cfg alvos ss' q in
      let s : Saida A O = record {
        out = out;
        alvo = alvo;
        fatia = replicate alvo.pixel_count black;
        stats = no_stats;
      } in
      let made : ss ≡ s ∷ ss' = ground arith in
      subst (λ l. AllCounted 0 l × (frames_of l ≡ 0) × (errors_of l ≡ 0)) (sym made)
        ((refl, h), omega arith, omega arith)

  -- From an opened manager on, after any calls in any order, and whatever the nodes answered,
  -- every target counts, in frames taken and frames refused together, as many frames as were sent,
  -- and the manager counts the sums of its targets' counters, all modulo 2^64.
  pub open_manager-AreCounted :
      (is_one : F → Bool) (make_lut : F → F → CalibrationLut) (cfg : OutputConfig A F)
      (m : OutputManager A F O) (output : ProtocolOutput O) (cs : List Call)
      → open_manager drivers is_one make_lut cfg ≡ ok m
      → AreCounted (frame_count cs) (after_calls output m cs)
  unfolding open_manager
  open_manager-AreCounted is_one make_lut cfg m output cs e =
      let (ss, p, last) = bind_inverse (open_alvos drivers cfg cfg.alvos) _ e in
      let (h, no_frames, no_errors) = open_alvos-AllCounted cfg cfg.alvos ss p in
      let saidas : ss ≡ m.saidas = ground arith in
      let stats : m.stats ≡ no_stats = ground arith in
      let start : AreCounted 0 m = (
        subst (AllCounted 0) saidas h,
        ap (λ st. st.frames_sent) stats ∙ omega (arith, ap frames_of saidas),
        ap (λ st. st.errors) stats ∙ omega (arith, ap errors_of saidas),
      ) in
      let none_before : 0 + frame_count cs ≡ frame_count cs = omega arith in
      subst (λ k. AreCounted k (after_calls output m cs)) none_before
        (after_calls-AreCounted output 0 m cs start)
