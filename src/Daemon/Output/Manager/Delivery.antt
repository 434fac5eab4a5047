-- ===== src/Daemon/Output/Manager/Delivery.antt =====
-- What each node is handed by `OutputManager::send`.
use led_platform.Prelude.{
  All, ◌==◌, ◌∙◌, false, length-replicate, subst, sym, Bool, List, Option, [], ap, arith, drop,
  if◌then◌else◌, length, length-drop, length-take, ltb, map, min, none, not, refl, replicate, some,
  suc, take, true, zero, ℕ, ◌&&◌, ◌++◌, ◌+◌, ◌-◌, ◌<◌, ◌∷◌, ◌≡◌, ◌≤◌,
}
use led_platform.Color.{PixelColor}
use led_platform.Hal.Calibration.{CalibrationLut}
use led_platform.Hal.Output.{OutputError}
use led_platform.Daemon.Output.Config.{Alvo}
use led_platform.Daemon.Output.Manager.{OutputStats, ProtocolOutput, LogicalFrame, Saida, black}
use led_platform.Daemon.Output.Manager.Send.{
  Enviado, sent_to, enviar_from, or_first, handed, resize, map_color, correct_into, copy_pixels,
  copied,
}

-- The pixels of the show that are a target's.
abbrev pub slice_of : {A : Type 0} → List PixelColor → Alvo A → List PixelColor
slice_of pixels a = take a.pixel_count (drop a.pixel_offset pixels)

-- What a target is to show: its own pixels, or black.
abbrev pub wanted : {A : Type 0} → Bool → List PixelColor → Alvo A → List PixelColor
wanted blackout pixels a =
    if blackout && not a.escapa_blackout then replicate a.pixel_count black else slice_of pixels a

abbrev pub corrected : Option CalibrationLut → List PixelColor → List PixelColor
corrected none pixels = pixels
corrected (some lut) pixels = map (map_color lut) pixels

abbrev pub concat : {A : Type 0} → List (List A) → List A
concat [] = []
concat (xs ∷ xss) = xs ++ concat xss

abbrev pub first_error : List (Option OutputError) → Option OutputError
first_error [] = none
first_error (some e ∷ rest) = some e
first_error (none ∷ rest) = first_error rest

-- The buffers of the targets have the sizes that `open` gives them.
abbrev pub AreSized : {A O : Type 0} → ℕ → List (Saida A O) → Type 0
AreSized n [] = Unit {0}
AreSized n (s ∷ ss) =
    (length s.fatia ≡ s.alvo.pixel_count) × (s.alvo.pixel_count ≤ n) × AreSized n ss

copy_pixels-all :
    (buf pixels : List PixelColor) → length buf ≡ length pixels → copy_pixels buf pixels ≡ pixels
unfolding copy_pixels
copy_pixels-all [] [] e = refl
copy_pixels-all [] (c ∷ pixels) e = absurd (omega arith)
copy_pixels-all (b ∷ buf) [] e = absurd (omega arith)
copy_pixels-all (b ∷ buf) (c ∷ pixels) e = ap (◌∷◌ c) (copy_pixels-all buf pixels (omega arith))

pub correct_into-resize :
    (lut : CalibrationLut) (buf pixels : List PixelColor)
    → correct_into lut (resize buf (length pixels)) pixels ≡ map (map_color lut) pixels
unfolding correct_into resize
correct_into-resize lut buf [] = refl
correct_into-resize lut [] (c ∷ pixels) =
    ap (◌∷◌ (map_color lut c)) (correct_into-resize lut [] pixels)
correct_into-resize lut (b ∷ buf) (c ∷ pixels) =
    ap (◌∷◌ (map_color lut c)) (correct_into-resize lut buf pixels)

copied-all :
    (inicio count : ℕ) (pixels fatia : List PixelColor)
    → 0 < count
    → inicio + count ≤ length pixels
    → length fatia ≡ count
    → copied inicio (min (inicio + count) (length pixels)) pixels fatia
      ≡ take count (drop inicio pixels)
unfolding copied
copied-all inicio count pixels fatia pos le e =
    let small : min (inicio + count) (length pixels) ≡ inicio + count = omega arith in
    let lt : ltb inicio (inicio + count) ≡ true = ground arith in
    let width : inicio + count - inicio ≡ count = omega arith in
    rw (small, lt, width)
      (copy_pixels-all fatia (take count (drop inicio pixels))
        (omega (arith, length-take count (drop inicio pixels), length-drop inicio pixels)))

pub take-replicate : (n m : ℕ) (c : PixelColor) → n ≤ m → take n (replicate m c) ≡ replicate n c
take-replicate zero m c le = refl
take-replicate (suc n) zero c le = absurd (omega arith)
take-replicate (suc n) (suc m) c le = ap (◌∷◌ c) (take-replicate n m c (omega arith))

take-length : {A : Type 0} (n : ℕ) (xs : List A) → n ≡ length xs → take n xs ≡ xs
take-length zero [] e = refl
take-length zero (x ∷ xs) e = absurd (omega arith)
take-length (suc n) [] e = absurd (omega arith)
take-length (suc n) (x ∷ xs) e = ap (◌∷◌ x) (take-length n xs (omega arith))

abbrev pub framed : LogicalFrame → List PixelColor → LogicalFrame
framed frame pixels = record { pixels = pixels; timestamp_ms = frame.timestamp_ms }

take-black :
    (n k count : ℕ) → n ≡ count → count ≤ k → take n (replicate k black) ≡ replicate count black
take-black n k count e le = rw e (take-replicate count k black le)

slice_of-whole :
    {A : Type 0} (pixels : List PixelColor) (a : Alvo A)
    → a.pixel_offset ≡ 0
    → a.pixel_count ≡ length pixels
    → slice_of pixels a ≡ pixels
slice_of-whole pixels a o c =
    subst (λ n. take a.pixel_count (drop n pixels) ≡ pixels) (sym o)
      (take-length a.pixel_count pixels c)

-- What the loop hands a target is what the target is to show.
handed-wanted :
    {A O : Type 0} (apagar sole : Bool) (k : ℕ) (frame : LogicalFrame) (s : Saida A O)
    → length s.fatia ≡ s.alvo.pixel_count
    → s.alvo.pixel_count ≤ k
    → 0 < s.alvo.pixel_count
    → s.alvo.pixel_offset + s.alvo.pixel_count ≤ length frame.pixels
    → (sole ≡ true → (s.alvo.pixel_offset ≡ 0) × (s.alvo.pixel_count ≡ length frame.pixels))
    → ((handed apagar sole (replicate k black) frame s).0
        ≡ framed frame
            (if apagar then replicate s.alvo.pixel_count black else slice_of frame.pixels s.alvo))
      × (length (handed apagar sole (replicate k black) frame s).1 ≡ s.alvo.pixel_count)
unfolding handed
handed-wanted true true k frame s sized fits pos le single = (
  ap (framed frame) (
      take-black (min (length frame.pixels) (length (replicate k black))) k s.alvo.pixel_count
        (omega (arith, (single refl).1, length-replicate {0} k black)) fits),
  sized,
)
handed-wanted true false k frame s sized fits pos le single = (
  ap (framed frame) (
      take-black (min s.alvo.pixel_count (length (replicate k black))) k s.alvo.pixel_count
        (omega (arith, length-replicate {0} k black)) fits),
  sized,
)
handed-wanted false true k frame s sized fits pos le single =
    let (o, c) = single refl in
    (ap (framed frame) (sym (slice_of-whole frame.pixels s.alvo o c)), sized)
handed-wanted false false k frame s sized fits pos le single =
    let e = copied-all s.alvo.pixel_offset s.alvo.pixel_count frame.pixels s.fatia pos le sized in
    (
      ap (framed frame) e,
      rw e (
          omega (
            arith,
            length-take s.alvo.pixel_count (drop s.alvo.pixel_offset frame.pixels),
            length-drop s.alvo.pixel_offset frame.pixels,
          )),
    )

cons_eq :
    {A : Type 0} {x y : A} {xs ys : List A} → x ≡ y → xs ≡ ys → ◌≡◌ {A = List A} (x ∷ xs) (y ∷ ys)
cons_eq p q = cc

or_first-first_error :
    (primeiro r r' : Option OutputError) (rest : List (Option OutputError))
    → r ≡ r'
    → or_first (or_first primeiro r) (first_error rest)
      ≡ or_first primeiro (first_error (r' ∷ rest))
or_first-first_error (some e) r r' rest p = refl
or_first-first_error none none r' rest p = rw (sym p) refl
or_first-first_error none (some e) r' rest p = rw (sym p) refl

module _ {A O : Type 0} (output : ProtocolOutput O) (blackout : Bool) (frame : LogicalFrame) where
  -- What a node makes of what it is to show.
  abbrev pub answer : Saida A O → O × Option OutputError
  answer s = output.send_frame s.out (framed frame (wanted blackout frame.pixels s.alvo))

module _ {A O : Type 0} (output : ProtocolOutput O) (blackout : Bool) (k : ℕ)
    (frame : LogicalFrame) where
  abbrev pub IsReady : Bool → Saida A O → Type 0
  IsReady alone s =
      (length s.fatia ≡ s.alvo.pixel_count)
      × (s.alvo.pixel_count ≤ k)
      × (0 < s.alvo.pixel_count)
      × (s.alvo.pixel_offset + s.alvo.pixel_count ≤ length frame.pixels)
      × (alone && s.alvo.pixel_offset == 0 ≡ true
          → (s.alvo.pixel_offset ≡ 0) × (s.alvo.pixel_count ≡ length frame.pixels))

  -- Every node is left as it is on what it is to show, and the first error is kept.
  abbrev pub Answered : Option OutputError → List (Saida A O) → Enviado A O → Type 0
  Answered primeiro ss e =
      (map (λ s. s.out) e.saidas ≡ map (λ s. (answer output blackout frame s).0) ss)
      × (map (λ s. s.alvo) e.saidas ≡ map (λ s. s.alvo) ss)
      × AreSized k e.saidas
      × (e.primeiro_erro
          ≡ or_first primeiro (first_error (map (λ s. (answer output blackout frame s).1) ss)))

  pub enviar_from-answers :
      (alone : Bool) (ss : List (Saida A O)) (stats : OutputStats) (primeiro : Option OutputError)
      → All (IsReady alone) ss
      → Answered primeiro ss
          (enviar_from output blackout alone (replicate k black) frame ss stats primeiro)
  unfolding enviar_from
  enviar_from-answers alone [] stats none h = (refl, refl, tt, refl)
  enviar_from-answers alone [] stats (some e) h = (refl, refl, tt, refl)
  enviar_from-answers alone (s ∷ ss) stats primeiro ((sized, fits, pos, le, single), h) =
      let apagar = blackout && not s.alvo.escapa_blackout in
      let sole = alone && s.alvo.pixel_offset == 0 in
      let (f, buf) = handed apagar sole (replicate k black) frame s in
      let (e, kept) = handed-wanted apagar sole k frame s sized fits pos le single in
      let (s', stats', primeiro') = sent_to s buf stats primeiro (output.send_frame s.out f) in
      let (outs, alvos, sizes, first) = enviar_from-answers alone ss stats' primeiro' h in
      let same : output.send_frame s.out f ≡ answer output blackout frame s =
        ap (output.send_frame s.out) e in
      (
        cons_eq (ap (λ p. p.0) same) outs,
        ap (◌∷◌ s.alvo) alvos,
        (kept, fits, sizes),
        first
            ∙ or_first-first_error primeiro (output.send_frame s.out f).1
                (answer output blackout frame s).1
                (map (λ s. (answer output blackout frame s).1) ss) (ap (λ p. p.1) same),
      )
