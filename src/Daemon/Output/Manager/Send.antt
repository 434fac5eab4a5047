-- ===== src/Daemon/Output/Manager/Send.antt =====
-- crates/led-daemon-bin/src/output.rs: `OutputManager::send` and `OutputManager::enviar`.
use led_platform.Prelude.{
  Bool, List, Option, [], drop, if◌then◌else◌, length, ltb, min, none, not, some, suc, take, u16,
  u64, zero, ℕ, ◌&&◌, ◌+◌, ◌-◌, ◌==◌, ◌∷◌,
}
use led_platform.Color.{PixelColor}
use led_platform.Hal.Calibration.{CalibrationLut, lut_at}
use led_platform.Hal.Output.{OutputError}
use led_platform.Daemon.Output.Manager.{
  LogicalFrame, ProtocolOutput, OutputStats, Saida, OutputManager, black,
}

-- `Vec::resize`.
unfoldable pub resize : List PixelColor → ℕ → List PixelColor
resize xs zero = []
resize [] (suc n) = black ∷ resize [] n
resize (x ∷ xs) (suc n) = x ∷ resize xs n

unfoldable pub map_color : CalibrationLut → PixelColor → PixelColor
map_color lut c = record { r = lut_at lut c.r; g = lut_at lut c.g; b = lut_at lut c.b }

-- The loop over `buf.iter_mut().zip(pixels)`.
unfoldable pub correct_into : CalibrationLut → List PixelColor → List PixelColor → List PixelColor
correct_into lut (dst ∷ buf) (src ∷ pixels) = map_color lut src ∷ correct_into lut buf pixels
correct_into lut buf _ = buf

-- `buf[..n].copy_from_slice`.
unfoldable pub copy_pixels : List PixelColor → List PixelColor → List PixelColor
copy_pixels (x ∷ buf) (c ∷ pixels) = c ∷ copy_pixels buf pixels
copy_pixels buf _ = buf

-- What is copied into a `fatia`, where anything is.
unfoldable pub copied : ℕ → ℕ → List PixelColor → List PixelColor → List PixelColor
unfolding copy_pixels
copied inicio fim pixels fatia =
    if ltb inicio fim then copy_pixels fatia (take (fim - inicio) (drop inicio pixels)) else fatia

-- `fetch_add`, which wraps.
abbrev pub counted : OutputStats → Option OutputError → OutputStats
counted st none = record st { frames_sent = u64 (st.frames_sent + 1) }
counted st (some e) = record st { errors = u64 (st.errors + 1) }

-- `get_or_insert`.
abbrev pub or_first : Option OutputError → Option OutputError → Option OutputError
or_first (some first) r = some first
or_first none r = r

pub record Enviado (A O : Type 0) : Type 0 where
  pub saidas : List (Saida A O)
  pub stats : OutputStats
  pub primeiro_erro : Option OutputError

-- What one target is handed, and its `fatia` afterwards.
unfoldable pub handed :
    {A O : Type 0}
    → Bool
    → Bool
    → List PixelColor
    → LogicalFrame
    → Saida A O
    → LogicalFrame × List PixelColor
unfolding copied
handed apagar sole preto frame s =
    let n = min (if sole then length frame.pixels else s.alvo.pixel_count) (length preto) in
    let inicio = s.alvo.pixel_offset in
    let fim = min (inicio + s.alvo.pixel_count) (length frame.pixels) in
    let buf = copied inicio fim frame.pixels s.fatia in
    if apagar
    then (record { pixels = take n preto; timestamp_ms = frame.timestamp_ms }, s.fatia)
    else if sole
    then (frame, s.fatia)
    else (record { pixels = buf; timestamp_ms = frame.timestamp_ms }, buf)

module _ {A O : Type 0} where
  abbrev pub push_saida : Saida A O → Enviado A O → Enviado A O
  push_saida s e = record e { saidas = s ∷ e.saidas }

  abbrev pub sent_with : Saida A O → List PixelColor → O × Option OutputError → Saida A O
  sent_with s buf (out, r) = record {
    out = out;
    alvo = s.alvo;
    fatia = buf;
    stats = counted s.stats r;
  }

  -- One target of the loop: what it is left as, what the manager counts, and the first error.
  abbrev pub sent_to :
      Saida A O
      → List PixelColor
      → OutputStats
      → Option OutputError
      → O × Option OutputError
      → Saida A O × OutputStats × Option OutputError
  sent_to s buf stats primeiro (out, r) =
      (sent_with s buf (out, r), counted stats r, or_first primeiro r)

abbrev pub after :
    {A F O : Type 0} → OutputManager A F O → Enviado A O → OutputManager A F O × Option OutputError
after m e = (record m { saidas = e.saidas; stats = e.stats }, e.primeiro_erro)

module _ {A O : Type 0} (output : ProtocolOutput O) where
  -- The loop over the outputs; `alone` is whether there is just one.
  unfoldable pub enviar_from :
      Bool
      → Bool
      → List PixelColor
      → LogicalFrame
      → List (Saida A O)
      → OutputStats
      → Option OutputError
      → Enviado A O
  unfolding handed
  enviar_from apagar_palco alone preto frame [] stats primeiro = record {
    saidas = [];
    stats = stats;
    primeiro_erro = primeiro;
  }
  enviar_from apagar_palco alone preto frame (s ∷ ss) stats primeiro =
      let apagar = apagar_palco && not s.alvo.escapa_blackout in
      let sole = alone && s.alvo.pixel_offset == 0 in
      let (f, buf) = handed apagar sole preto frame s in
      let (s', stats', primeiro') = sent_to s buf stats primeiro (output.send_frame s.out f) in
      push_saida s' (enviar_from apagar_palco alone preto frame ss stats' primeiro')

abbrev pub universe_total : {A O : Type 0} → ProtocolOutput O → List (Saida A O) → ℕ
universe_total output [] = 0
universe_total output (s ∷ ss) = output.universe_count s.out + universe_total output ss

module _ {A F O : Type 0} (output : ProtocolOutput O) where
  unfoldable pub enviar :
      OutputManager A F O → LogicalFrame → OutputManager A F O × Option OutputError
  unfolding enviar_from
  enviar m frame =
      after m
        (enviar_from output m.blackout (length m.saidas == 1) m.preto frame m.saidas m.stats none)

  unfoldable pub with_lut :
      OutputManager A F O
      → LogicalFrame
      → Option CalibrationLut
      → OutputManager A F O × Option OutputError
  unfolding enviar resize correct_into
  with_lut m frame none = enviar m frame
  with_lut m frame (some lut) =
      let buf = correct_into lut (resize m.corrigidos (length frame.pixels)) frame.pixels in
      enviar (record m { corrigidos = buf })
        (record { pixels = buf; timestamp_ms = frame.timestamp_ms })

  unfoldable pub send :
      OutputManager A F O → LogicalFrame → OutputManager A F O × Option OutputError
  unfolding with_lut
  send m frame = with_lut m frame m.lut

  -- The sum of `u16` numbers, which wraps.
  unfoldable pub universe_count : OutputManager A F O → ℕ
  universe_count m = u16 (universe_total output m.saidas)
