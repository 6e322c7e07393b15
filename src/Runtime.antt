-- ===== src/Runtime.antt =====
-- Three nodes together: the safety manager, the command arbiter and a hardware adapter, with the topics
-- between them.
pub mod System
pub mod Waiting
pub mod Taking
pub mod Stop
pub mod Limits
mod Tests
