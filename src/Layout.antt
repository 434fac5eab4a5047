-- ===== src/Layout.antt =====
-- The compiled map from logical pixels to channels: crates/led-core/src/mapping.rs.
--
-- `Layout.Compile` has `CompiledLayout::compile`, `Layout.Linear` the assignments of
-- `linear_format`, `Layout.Apply` the scratch buffers and `apply`. `usize` is a number without
-- bound; a slice out of range, a missing key and a failed `assert!` are `none`.
pub mod Compile
mod Index
mod Placement
pub mod Correct
pub mod Ranges
pub mod Linear
mod LinearPosition
pub mod LinearCapacity
pub mod Apply
mod Channels
pub mod Readback
pub mod LinearReadback
mod Tests
