-- ===== src/SafetyManager.antt =====
-- src/humaware_safety/humaware_safety_manager: the watchdogs, the node and what it promises.
pub mod Watchdog
pub mod Reason
pub mod Node
pub mod Trips
pub mod Classify
pub mod Latch
mod Tests
