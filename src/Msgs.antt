-- ===== src/Msgs.antt =====
-- The messages of src/humaware_msgs/msg with the `uint8` codes of their constants. A code is a
-- plain number, as a subscriber may receive any.
pub mod ModeState
pub mod ModeTransitionState
pub mod SafetyState
pub mod MrmState
pub mod CommandArbitrationState
pub mod LocomotionState
pub mod NavigationBridgeState
pub mod Capability
pub mod HealthState
pub mod SkillExecutionState
pub mod BalanceState
pub mod FootContactState
pub mod HumanoidState
