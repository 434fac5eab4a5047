-- ===== src/Triple.antt =====
-- The lock-free triple buffer between the render and the send thread: crates/led-triple/src/lib.rs.
--
-- One record has the shared slots, the shared word and the private index of each half. Each atomic
-- operation is one step, so `Consumer::update` is two: the load that sees the flag, and the swap.
-- `Triple.Steps` lets the halves interleave in every way.
pub mod Buffer
pub mod Steps
mod Tests
