-- ===== src/ModeManager.antt =====
-- src/humaware_runtime/humaware_mode_manager: the transition rules, the node and what it promises.
pub mod Transition
pub mod Node
pub mod Rules
pub mod Services
pub mod Traces
mod Tests
