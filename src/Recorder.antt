-- ===== src/Recorder.antt =====
-- crates/led-show-recorder/src: recorded frames, their hash (lib.rs) and the manifests that nodes
-- compare (replay.rs). An `f32` is its 32 bits.
pub mod Format
pub mod Replay
mod Tests
