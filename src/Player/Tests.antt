-- ===== src/Player/Tests.antt =====
-- Two DDP nodes of one pixel each, and a recording of two frames.
use led_platform.Prelude.{
  saturating_add, Bool, List, [], arith, false, err, Option, if◌then◌else◌, ltb, map, none, not, ok,
  refl, some, true, ℕ, ◌*◌, ◌+◌, ◌<◌, ◌∷◌, ◌≡◌, ◌≤◌,
}
use led_platform.Color.{ColorFormat, grb}
use led_platform.Recorder.Format.{ShowRecord}
use led_platform.Recorder.Format.Reader.{ShowReader, collect_all}
use led_platform.Protocols.DdpSend.{max_pixels}
use led_platform.Daemon.Output.Protocol.{OutputProtocol}
use led_platform.Daemon.Output.Config.{Alvo}
use led_platform.Daemon.Output.Manager.{
  LogicalFrame, ProtocolOutput, Saida, OutputManager, black, no_stats,
}
use led_platform.Daemon.Output.Manager.Send.{send}
use led_platform.Daemon.Output.Manager.Delivery.{slice_of, concat}
use led_platform.Hal.Output.{transport}
use led_platform.Player.DdpOutput.{DdpOutput, ddp_output}
use led_platform.Player.OnWire.{AllReceive, Faces, send-AllReceive}
use led_platform.Player.Playback.{max_speed, play_instrumented, play_instrumented-after_all}
use led_platform.Recorder.Format.Reader.{
  ReadError, io, collect_from, next_frame, read_u64, read_u32, read_record, read_pixels, read_flag,
}
use led_platform.Player.Stream.Handed.{handed_from}
use led_platform.Player.Stream.Yields.{Yields, collected}
use led_platform.Player.Stream.{
  stream_from, round, on_frame, absolute, StreamReport, play_streaming,
}
use led_platform.Player.Stream.Counted.{
  played_then, play_streaming-collect_all, play_streaming-Counts,
}

abbrev takes_all : ℕ → Bool
takes_all k = true

abbrev node : ℕ → DdpOutput
node offset = record {
  dev = record {
    seq = 0;
    format = ColorFormat.rgb grb;
    pixel_offset = offset;
    max_px_override = some 487;
  };
  universes_equiv = 1;
  wire = [];
}

abbrev alvo : ℕ → Alvo ℕ
alvo offset = record {
  addr = offset;
  first_universe = 0;
  pixel_offset = offset;
  pixel_count = 1;
  escapa_blackout = false;
}

abbrev saida : ℕ → Saida ℕ DdpOutput
saida offset = record {
  out = node offset;
  alvo = alvo offset;
  fatia = black ∷ [];
  stats = no_stats;
}

abbrev manager : OutputManager ℕ ℕ DdpOutput
manager = record {
  saidas = saida 0 ∷ saida 1 ∷ [];
  cfg = record {
    protocol = OutputProtocol.ddp;
    alvos = alvo 0 ∷ alvo 1 ∷ [];
    pixel_count = 2;
    color = ColorFormat.rgb grb;
    pixels_per_universe = 170;
    ports = 1;
    max_pixels = 1;
    transport = record { mtu_bytes = 1500; heartbeat_ms = 800 };
    calibration = record { gamma = 1; brightness = 1 };
    supports_discovery = true;
  };
  stats = no_stats;
  lut = none;
  corrigidos = black ∷ black ∷ [];
  blackout = false;
  preto = black ∷ black ∷ [];
}

abbrev two_pixels : LogicalFrame
two_pixels = record {
  pixels = record { r = 1; g = 2; b = 3 } ∷ record { r = 4; g = 5; b = 6 } ∷ [];
  timestamp_ms = 0;
}

node-Faces : (offset : ℕ) → offset < 2 → Faces (ColorFormat.rgb grb) (saida offset)
unfolding max_pixels
node-Faces offset lt = (refl, refl, omega arith, omega arith)

send-AllReceive_example :
    ((send (ddp_output takes_all) manager two_pixels).1 ≡ none)
    × AllReceive
        (ColorFormat.rgb grb)
        two_pixels.pixels
        manager.saidas
        (map (λ s. s.out) (send (ddp_output takes_all) manager two_pixels).0.saidas)
    × (concat (map (slice_of two_pixels.pixels) (alvo 0 ∷ alvo 1 ∷ [])) ≡ two_pixels.pixels)
send-AllReceive_example =
    send-AllReceive takes_all (λ k. refl) (ColorFormat.rgb grb) 1 manager two_pixels
      (
        2,
        refl,
        (refl, omega arith, (refl, omega arith, tt)),
        (refl, omega arith, omega arith, (refl, omega arith, omega arith, refl)),
      )
      refl (node-Faces 0 (omega arith), (node-Faces 1 (omega arith), tt))

abbrev positive : ℕ → Bool
positive f = ltb 0 f

abbrev frame : ℕ → ShowRecord
frame t = record { timestamp_ms = t; pixels = black ∷ []; audio = none }

-- An output that refuses every second frame.
abbrev moody : ProtocolOutput Bool
moody = record {
  send_frame = λ o f. (not o, if o then none else some transport);
  universe_count = λ o. 1;
}

abbrev show : List ShowRecord
show = frame 0 ∷ frame 25 ∷ []

play_instrumented-after_all_example :
    let (p, rep) = play_instrumented moody (λ f gap. gap) positive show max_speed true in
    (p.output ≡ true) × (rep.frames_played + rep.frames_failed ≡ 2)
play_instrumented-after_all_example =
    play_instrumented-after_all moody (λ f gap. gap) positive show max_speed true (omega arith)

-- One frame at 25 ms of one black pixel, with no audio.
abbrev reader : ShowReader
reader = record {
  inner = 25 ∷ 0 ∷ 0 ∷ 0 ∷ 0 ∷ 0 ∷ 0 ∷ 0 ∷ 0 ∷ 0 ∷ 0 ∷ 0 ∷ [];
  pixel_count = 1;
  frame_count_hint = 1;
  frames_read = 0;
}

abbrev clock : ℕ → ℕ
clock k = 30 * k

-- The same frame, and a file that is cut short in the next one.
abbrev cut : ShowReader
cut = record {
  inner = 25 ∷ 0 ∷ 0 ∷ 0 ∷ 0 ∷ 0 ∷ 0 ∷ 0 ∷ 0 ∷ 0 ∷ 0 ∷ 0 ∷ 50 ∷ 0 ∷ 0 ∷ 0 ∷ 0 ∷ 0 ∷ 0 ∷ 0 ∷ 9 ∷ [];
  pixel_count = 1;
  frame_count_hint = 2;
  frames_read = 0;
}

play_streaming-collect_all_example :
    (rs : List ShowRecord) × (ending : Option ReadError) × Yields cut rs ending
    × (play_streaming moody (absolute 0) clock cut true
        ≡ some (played_then moody (absolute 0) clock 1 true rs ending))
    × ((played_then moody (absolute 0) clock 1 true rs ending).0
        ≡ handed_from moody (absolute 0) clock 1 none 0 true rs)
    × (collect_all cut ≡ some (collected rs ending))
play_streaming-collect_all_example = play_streaming-collect_all moody (absolute 0) clock cut true

-- The frame before the cut has gone out.
cut_midway : play_streaming moody (absolute 0) clock cut true ≡ some (false, err io)
unfolding play_streaming stream_from round on_frame next_frame read_u64 read_u32 read_record
    read_pixels read_flag saturating_add
cut_midway = refl

reader_whole : collect_all reader ≡ some (ok (frame 25 ∷ []))
unfolding collect_all collect_from next_frame read_u64 read_u32 read_record read_pixels read_flag
reader_whole = refl

play_streaming-Counts_example :
    (out' : Bool) × (rep : StreamReport) × (play_streaming moody (absolute 0) clock reader true
      ≡ some (out', ok rep))
    × (rep.frames_played + rep.frames_failed ≤ 1)
    × (1 ≤ rep.frames_played + rep.frames_failed + rep.frames_late)
    × (rep.frames_late ≤ 1)
    × (rep.frames_late ≡ 0 → rep.worst_late_ms ≡ 0)
play_streaming-Counts_example =
    play_streaming-Counts moody (absolute 0) clock reader true (frame 25 ∷ []) reader_whole
      (omega arith)
