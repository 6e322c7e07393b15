-- ===== src/Msgs/LocomotionState.antt =====
-- src/humaware_msgs/msg/LocomotionState.msg
use huma_ware.Common.{ℕ, String, Bool, List}
use huma_ware.Ros.Twist.{Header}

abbrev pub state_unknown : ℕ
state_unknown = 0

abbrev pub state_inactive : ℕ
state_inactive = 1

abbrev pub state_standing : ℕ
state_standing = 2

abbrev pub state_walking : ℕ
state_walking = 3

abbrev pub state_turning : ℕ
state_turning = 4

abbrev pub state_stopping : ℕ
state_stopping = 5

abbrev pub state_recovering : ℕ
state_recovering = 6

abbrev pub state_fault : ℕ
state_fault = 7

pub record LocomotionState (F : Type 0) : Type 0 where
  pub header : Header
  pub robot_id : String
  pub state : ℕ
  pub active_adapter : String
  pub commanded_linear_velocity_mps : F
  pub commanded_angular_velocity_radps : F
  pub max_safe_linear_velocity_mps : F
  pub max_safe_angular_velocity_radps : F
  pub balance_required : Bool
  pub navigation_control_active : Bool
  pub active_constraints : List String
