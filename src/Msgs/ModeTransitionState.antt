-- ===== src/Msgs/ModeTransitionState.antt =====
-- src/humaware_msgs/msg/ModeTransitionState.msg
use huma_ware.Common.{ℕ, String, Bool}
use huma_ware.Ros.Twist.{Header}

abbrev pub outcome_unknown : ℕ
outcome_unknown = 0

abbrev pub outcome_accepted : ℕ
outcome_accepted = 1

abbrev pub outcome_rejected : ℕ
outcome_rejected = 2

pub record ModeTransitionState : Type 0 where
  pub header : Header
  pub robot_id : String
  pub previous_mode : ℕ
  pub requested_mode : ℕ
  pub active_mode : ℕ
  pub requester : String
  pub reason : String
  pub outcome : ℕ
  pub message : String
  pub takeover : Bool
