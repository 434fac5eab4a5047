-- ===== src/Protocols.antt =====
-- The output protocols: crates/led-protocols/src. A builder returns the bytes that it writes to
-- `buf[..total]`, which are those that the callers send; a failed `assert!` and a slice out of range
-- are `none`. A byte is a number below 256. The socket is a parameter: whether it takes a datagram.
pub mod Ddp
pub mod DdpSend
pub mod ArtNet
pub mod ArtNetDevice
pub mod Discovery
mod Tests
pub mod Sacn
pub mod Router
