-- ===== src/Runtime.antt =====
-- The transport of a show at run time: crates/led-daemon/src/lib.rs. Its types, its commands and
-- the machine `ShowRuntime::apply` with one function for each handler.
--
-- Time is an argument of `apply`, as in the source. A method on `&mut self` returns the new record
-- and its result. `unreachable!` and `expect` on an absent value end in the outcome `panics`.
pub mod Types
pub mod Machine
pub mod Invariant
pub mod Graph
pub mod Position
mod Tests
