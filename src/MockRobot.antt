-- ===== src/MockRobot.antt =====
-- src/humaware_hardware/humaware_mock_robot: the stand-in for a robot.
pub mod Node
pub mod Mirror
mod Tests
