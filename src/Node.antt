-- ===== src/Node.antt =====
-- crates/geomqtt-server/src/main.rs: the tasks of a server, and what they do to the state that they
-- share, in any order.
pub mod Step
pub mod Run
pub mod Serve
pub mod Accepts
pub mod Main
mod Select
pub mod Shutdown
pub mod Life
