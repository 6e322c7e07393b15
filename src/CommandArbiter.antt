-- ===== src/CommandArbiter.antt =====
-- src/humaware_runtime/humaware_command_arbiter: selection, limits, the node and what it promises.
pub mod Select
pub mod Node
pub mod Priority
pub mod Limits
pub mod Output
pub mod Heard
pub mod Wiring
mod Tests
