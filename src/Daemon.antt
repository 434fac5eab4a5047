-- ===== src/Daemon.antt =====
-- crates/led-daemon-bin: the daemon's own code, a module per file of it.
pub mod Json
pub mod Output
pub mod Preflight
pub mod Proto
pub mod Source
pub mod Stage
mod Tests
