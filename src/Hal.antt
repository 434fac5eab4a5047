-- ===== src/Hal.antt =====
-- The hardware abstraction: crates/led-hal/src. To the cluster a segment's `Hal` is a parameter, the result of its
-- `send_frame`; an `Instant` is what the model is given of it, the milliseconds since the epoch.
pub mod Calibration
pub mod Output
pub mod NetworkGuard
pub mod Simulator
pub mod Cluster
pub mod SharedClock
mod Tests
