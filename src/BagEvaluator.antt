-- ===== src/BagEvaluator.antt =====
-- src/humaware_tools/humaware_bag_evaluator: the evaluation of a recorded bag, its report and the
-- command line tool.
pub mod Topics
pub mod Names
pub mod Walk
pub mod Reference
pub mod Result
pub mod Missing
pub mod Gaps
pub mod Silence
pub mod Readings
pub mod Changes
pub mod Report
pub mod Cli
pub mod Outcome
mod Tests
