-- ===== src/Daemon/Json.antt =====
-- crates/led-daemon-bin/src/json.rs: JSON, read from a socket.
pub mod Text
pub mod Value
pub mod Scan
pub mod Parser
