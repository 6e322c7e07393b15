-- ===== src/Msgs/CommandArbitrationState.antt =====
-- src/humaware_msgs/msg/CommandArbitrationState.msg
use huma_ware.Common.{ℕ, String, Bool}
use huma_ware.Ros.Time.{Time, DurationMsg}
use huma_ware.Ros.Twist.{Header}

abbrev pub source_none : ℕ
source_none = 0

abbrev pub source_safety : ℕ
source_safety = 1

abbrev pub source_teleop : ℕ
source_teleop = 2

abbrev pub source_autonomy : ℕ
source_autonomy = 3

abbrev pub source_ai_policy : ℕ
source_ai_policy = 4

abbrev pub source_demo : ℕ
source_demo = 5

pub record CommandArbitrationState : Type 0 where
  pub header : Header
  pub robot_id : String
  pub active_source : ℕ
  pub active_source_name : String
  pub active_mode : ℕ
  pub safety_state : ℕ
  pub output_enabled : Bool
  pub stop_command_published : Bool
  pub last_command_time : Time
  pub command_age : DurationMsg
  pub reason : String
