-- ===== src/CapabilityRegistry.antt =====
-- src/humaware_runtime/humaware_capability_registry: the node, and what its client, the skill server,
-- makes of what it publishes.
pub mod Specs
pub mod Node
pub mod Offers
pub mod Client
mod Tests
