-- ===== src/Launch.antt =====
-- src/humaware_launch/launch and src/humaware_examples/launch: what the launch files start.
pub mod Actions
pub mod Bringup
pub mod Replay
pub mod Topics
pub mod Coverage
mod Tests
