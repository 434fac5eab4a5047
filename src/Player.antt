-- ===== src/Player.antt =====
-- crates/led-player/src: playing recorded shows. `Player.DdpOutput` is the output over DDP, and
-- `Player.OnWire` what its nodes receive of an `OutputManager`; `Player.Playback` is `play` and
-- `Player.Stream` the playing frame by frame from a file.
pub mod DdpOutput
pub mod OnWire
pub mod Playback
pub mod Stream
mod Tests
