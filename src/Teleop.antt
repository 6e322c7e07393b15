-- ===== src/Teleop.antt =====
-- src/humaware_teleop/humaware_keyboard_teleop: the key map, the node, and what they promise.
pub mod Keymap
pub mod Node
pub mod Bounds
pub mod Stop
pub mod Threads
pub mod Interleavings
pub mod Sequential
pub mod Races
mod Tests
