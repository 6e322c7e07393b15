-- ===== src/Msgs/SkillExecutionState.antt =====
-- src/humaware_msgs/msg/SkillExecutionState.msg
use huma_ware.Common.{ℕ, String, Bool}
use huma_ware.Ros.Time.{Time, DurationMsg}
use huma_ware.Ros.Twist.{Header}

abbrev pub status_unknown : ℕ
status_unknown = 0

abbrev pub status_rejected : ℕ
status_rejected = 1

abbrev pub status_accepted : ℕ
status_accepted = 2

abbrev pub status_executing : ℕ
status_executing = 3

abbrev pub status_completed : ℕ
status_completed = 4

pub record SkillExecutionState : Type 0 where
  pub header : Header
  pub robot_id : String
  pub execution_id : String
  pub capability_name : String
  pub requester : String
  pub status : ℕ
  pub message : String
  pub accepted_at : Time
  pub timeout : DurationMsg
  pub command_published : Bool
