-- ===== src/Msgs/Capability.antt =====
-- src/humaware_msgs/msg/Capability.msg
use huma_ware.Common.{ℕ, String, List}
use huma_ware.Ros.Time.{DurationMsg}

abbrev pub state_unknown : ℕ
state_unknown = 0

abbrev pub state_unavailable : ℕ
state_unavailable = 1

abbrev pub state_idle : ℕ
state_idle = 2

abbrev pub state_executing : ℕ
state_executing = 3

abbrev pub state_degraded : ℕ
state_degraded = 4

abbrev pub state_fault : ℕ
state_fault = 5

pub record Capability : Type 0 where
  pub name : String
  pub state : ℕ
  pub required_mode : String
  pub owner_node : String
  pub required_hardware : List String
  pub input_type : String
  pub output_type : String
  pub timeout : DurationMsg
  pub safety_constraints : List String
  pub recovery_behavior : String
