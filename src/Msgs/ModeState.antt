-- ===== src/Msgs/ModeState.antt =====
-- src/humaware_msgs/msg/ModeState.msg
use huma_ware.Common.{ℕ, String}
use huma_ware.Ros.Time.{Time}
use huma_ware.Ros.Twist.{Header}

abbrev pub mode_unknown : ℕ
mode_unknown = 0

abbrev pub mode_maintenance : ℕ
mode_maintenance = 1

abbrev pub mode_inactive : ℕ
mode_inactive = 2

abbrev pub mode_teleop : ℕ
mode_teleop = 3

abbrev pub mode_autonomy : ℕ
mode_autonomy = 4

abbrev pub mode_ai_policy : ℕ
mode_ai_policy = 5

abbrev pub mode_fault : ℕ
mode_fault = 6

abbrev pub mode_shutdown : ℕ
mode_shutdown = 7

pub record ModeState : Type 0 where
  pub header : Header
  pub robot_id : String
  pub requested_mode : ℕ
  pub active_mode : ℕ
  pub owner : String
  pub transition_reason : String
  pub active_since : Time
