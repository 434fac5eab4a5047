-- ===== src/Hardware.antt =====
-- Hardware profiles: crates/led-hardware-profile/src. `Hardware.Repartition` shares the pixels of a
-- show out to nodes and ports (reparticao.rs); `usize` products wrap at 64 bits and casts truncate.
pub mod Repartition
pub mod Shares
pub mod Ports
pub mod Profile
pub mod Transport
pub mod Validate
pub mod Compile
pub mod Validated
mod Tests
mod ProfileTests
