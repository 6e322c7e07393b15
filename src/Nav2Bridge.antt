-- ===== src/Nav2Bridge.antt =====
-- src/humaware_navigation/humaware_nav2_bridge: the node and what it promises.
pub mod Node
pub mod Forwarding
mod Tests
