-- ===== src/SkillServer.antt =====
-- src/humaware_runtime/humaware_skill_server: the node and what it promises.
pub mod Requests
pub mod Node
pub mod Execution
mod Tests
