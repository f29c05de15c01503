-- ===== src/Tests.antt =====
-- Runs of the code at concrete inputs, with a small environment to run it in.
mod Toy
mod Topics
mod Units
mod Routes
mod Settings
mod Sessions
mod Lines
mod Writes
mod Nodes
mod Bytewise
mod Commands
mod Connections
mod Requests
mod Runs
mod Startup
