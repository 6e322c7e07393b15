-- ===== src/Msgs/NavigationBridgeState.antt =====
-- src/humaware_msgs/msg/NavigationBridgeState.msg
use huma_ware.Common.{ℕ, String, Bool}
use huma_ware.Ros.Time.{Time, DurationMsg}
use huma_ware.Ros.Twist.{Header}

abbrev pub state_unknown : ℕ
state_unknown = 0

abbrev pub state_idle : ℕ
state_idle = 1

abbrev pub state_active : ℕ
state_active = 2

abbrev pub state_blocked : ℕ
state_blocked = 3

abbrev pub state_stale : ℕ
state_stale = 4

abbrev pub state_disabled : ℕ
state_disabled = 5

pub record NavigationBridgeState : Type 0 where
  pub header : Header
  pub robot_id : String
  pub state : ℕ
  pub active_mode : ℕ
  pub safety_state : ℕ
  pub locomotion_state : ℕ
  pub bridge_enabled : Bool
  pub output_enabled : Bool
  pub input_topic : String
  pub output_topic : String
  pub last_input_time : Time
  pub last_output_time : Time
  pub command_age : DurationMsg
  pub reason : String
