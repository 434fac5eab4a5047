-- ===== src/Daemon/Output.antt =====
-- crates/led-daemon-bin/src/output.rs: the output of the daemon. `Output.Protocol` and `Output.Spec`
-- read what the operator writes, `Output.Config` is the configuration, `Output.Manager` the
-- `OutputManager` that shares each frame out to the nodes.
pub mod Protocol
pub mod Spec
pub mod Config
pub mod Wired
pub mod Manager
mod Tests
