-- ===== src/Policy.antt =====
-- src/humaware_policy: the scripted provider's plan, and the two providers of candidate commands.
pub mod Plan
pub mod Turns
pub mod Advance
pub mod Advancing
pub mod Parse
pub mod Durations
pub mod Loading
pub mod Scripted
pub mod Stub
pub mod Emission
mod Tests
