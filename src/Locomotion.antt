-- ===== src/Locomotion.antt =====
-- src/humaware_locomotion/humaware_mock_locomotion_adapter: the node and what it promises.
pub mod Node
pub mod Motion
pub mod Constraints
pub mod Settling
mod Tests
