-- ===== src/Msgs/HumanoidState.antt =====
-- src/humaware_msgs/msg/HumanoidState.msg, the fields that the nodes set.
use huma_ware.Common.{ℕ, String, Bool, List}
use huma_ware.Ros.Twist.{Header}

pub record HumanoidState (F : Type 0) : Type 0 where
  pub header : Header
  pub robot_id : String
  pub mode : ℕ
  pub locomotion_state : ℕ
  pub safety_state : ℕ
  pub balance_state : ℕ
  pub battery_percentage : F
  pub cpu_temperature_c : F
  pub operator_present : Bool
  pub active_capabilities : List String
