-- ===== src/Diagnostics.antt =====
-- src/humaware_diagnostics/humaware_diagnostics_aggregator: the node and what it promises.
pub mod Topics
pub mod Node
pub mod Health
pub mod Coverage
mod Tests
