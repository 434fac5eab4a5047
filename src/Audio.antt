-- ===== src/Audio.antt =====
-- crates/audio-core: the capture path.
pub mod RingBuffer
mod Tests
