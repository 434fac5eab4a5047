-- ===== src/Lib.antt =====
-- LED platform: a model of the core of the show system, in crates/ of the repository.
--
-- A show run time in the daemon decides what plays and where it is. Frames of colours are mapped by a
-- compiled layout to channels of universes, and the output protocols put these on the wire, by
-- Art-Net per universe or by DDP per pixel. A hardware profile says what a node can do, and from it
-- the nodes' and ports' shares of pixels and their layouts are computed before the show. Between
-- threads frames go through a triple buffer; a cluster of segments takes them with a shared clock,
-- and recordings are compared between nodes by hashes of their frames.
--
-- Where each part is modelled:
--   * Runtime: crates/led-daemon/src/lib.rs. `ShowRuntime` is the record of the same fields, a
--     command handler is the function `cmd_...` of its name, `apply` is `ShowRuntime::apply` with its
--     guards (`guarded`) and its `match` (`dispatch`). An outcome is accepted with its events, refused
--     with its reason, or `panics` where the source has `unreachable!` or `expect`.
--   * Color: crates/led-core/src/types.rs, the bytes of a pixel by channel order and white mode.
--   * Layout: crates/led-core/src/mapping.rs. `Layout.Compile` is `CompiledLayout::compile` with its
--     maps as association lists in the order of insertion, `Layout.Linear` is `linear_format`, and
--     `Layout.Apply` is `make_scratch` and `apply`. `none` is a panic.
--   * Triple: crates/led-triple/src/lib.rs. Every operation on the shared word is a step of its own,
--     so that the two threads interleave in `Triple.Steps`. `update` is its load (`is_fresh`) and its
--     swap (`take_shared`).
--   * Hardware: crates/led-hardware-profile/src. `Hardware.Repartition` is `repartir` and
--     `repartir_portas_de`, `Hardware.Profile` the schema, `Hardware.Transport` the limits of the
--     network path, `Hardware.Validate` is `validate`, and `Hardware.Compile` is `compile_layout_de`.
--     `f32` is a type parameter with the two tests of it that the crate makes.
--   * Protocols: crates/led-protocols/src. `Protocols.Ddp` has the packets of ddp.rs and their parser,
--     `Protocols.DdpSend` is `send_pixels`. Of artnet.rs, `Protocols.ArtNet` has the ArtDmx packet,
--     `Protocols.ArtNetDevice` is `send_physical`, and `Protocols.Discovery` has `find_conflicts` and
--     `presence`. `Protocols.Sacn` is the E1.31 packet of packet.rs with its accessors, and
--     `Protocols.Sacn.Device` is `SacnDevice` of device.rs. `Protocols.Router` is `RouterDevice` of
--     router.rs over any back ends, with the library's binary search as a parameter. A builder returns
--     the bytes that are sent; whether the socket takes a datagram is a parameter.
--   * Hal: crates/led-hal/src. `Hal.Output` is `Hal::send_frame` of hal.rs over any driver, the trait
--     `DeviceDriver` being a record of its operations; it uses the layout of `Layout` and the tables
--     of `Hal.Calibration` (calibration.rs), and `Hal.Simulator` is the driver of sim.rs.
--     `Hal.Cluster` is `SyncedCluster` of cluster_sync.rs, where the answer of a segment's `Hal` is a
--     parameter; `Hal.SharedClock` is shared_clock.rs, a reading in two steps with other threads
--     between them. `Hal.NetworkGuard` is the probes of wireless interfaces of network_guard.rs, over
--     what they read of the system.
--   * Daemon: crates/led-daemon-bin/src. `Daemon.Stage` is `Stage::on_tick` of stage.rs with the
--     `Heartbeat` of crates/led-hal/src/heartbeat.rs, over any frame source and output, in the states
--     of `Runtime`. `Daemon.Source` is the `FrameSource` of source.rs, over the reader of `Recorder`.
--     `Daemon.Json` is json.rs: `Json.Value` the values and how they are written, `Json.Scan` the
--     reading of spaces, words and strings, `Json.Parser` that of values. A string is the list of its
--     characters where the code walks them and of its UTF-8 bytes elsewhere (`Json.Text`).
--     `Daemon.Proto` is `Request::from_line` of proto.rs on these values, with the number's part of
--     `as_u64` as a parameter. `Daemon.Output` is output.rs: `Output.Protocol` and `Output.Spec` read
--     the specs of the operator, `Output.Config` is `OutputConfig` with `resolve_muitos`, over any
--     parser of socket addresses, and `Output.Manager` is `OutputManager`, whose `open` takes the
--     sockets as a parameter (`Drivers`) and whose `send` and `enviar` are in `Manager.Send`, over any
--     implementation of the trait `ProtocolOutput`. `Daemon.Preflight` is preflight.rs, over any
--     network guard and any probe of a controller.
--   * Audio: crates/audio-core/src/ring_buffer.rs. A call of the producer or of the consumer is one
--     step; `x & mask` is a remainder, since the mask is one less than a power of two.
--   * Recorder: crates/led-show-recorder/src. `Recorder.Format` has the records and the writer of
--     lib.rs, `Recorder.Format.Reader` the reader, and `Recorder.Replay` has `pixel_hash` and the
--     manifests and comparisons of replay.rs. An `f32` of a file is its 32 bits.
--   * Player: crates/led-player/src. `Player.DdpOutput` is the output over DDP, which carries the
--     device of `Protocols.DdpSend`; `Player.Playback` is `play_instrumented`, and `Player.Stream` is
--     `play_streaming_unverified` over the reader of `Recorder`, with the readings of the clock as a
--     parameter. `Player.OnWire` puts it under the manager of `Daemon.Output`.
--   * Prelude: Boolean tests, lists, results and machine words over the native numbers.
--
-- Integers are natural numbers with their wrap-around written out; `usize` is 64 bits wide and
-- additions wrap as in a release build. Some loops have fuel. `send_pixels` has one round for each
-- pixel, and sends one at least. `collect_all` has one more than the bytes left, and a frame takes
-- eight; the loop of `frame_at` has one more than that, for the frame that was already read, and that
-- of `play_streaming_unverified` as many as `collect_all`. The loops of the JSON parser over a string,
-- an array and an object have one more than the bytes left, and each round takes one. The UTF-8
-- decoder has one for each byte. Other loops follow a list or a count; the nesting of JSON values
-- counts down from the depth that is allowed.
--
-- Not modelled: sockets, files, threads and the operating system's clock; the text output of the
-- read model, the metrics, the journal and the daemon's answers; the effects, the audio analysis, the
-- making of calibration tables and `cadencia_cabe_no_profile`, which are floating-point computations;
-- the back ends of the protocol router; the daemon's session and servers; baking and signing of
-- shows; the simulation of drift; the sequencer, the importers, the bridge and the user interfaces.
-- Memory orderings are taken to make the one atomic word of the triple buffer, and that of the clock,
-- sequentially consistent.
mod Prelude
pub mod Runtime
pub mod Color
pub mod Layout
pub mod Triple
pub mod Hardware
pub mod Protocols
pub mod Daemon
pub mod Audio
pub mod Hal
pub mod Recorder
pub mod Player
