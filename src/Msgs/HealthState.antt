-- ===== src/Msgs/HealthState.antt =====
-- src/humaware_msgs/msg/HealthState.msg
use huma_ware.Common.{ℕ, String, Bool, List}
use huma_ware.Ros.Twist.{Header}

abbrev pub health_unknown : ℕ
health_unknown = 0

abbrev pub health_ok : ℕ
health_ok = 1

abbrev pub health_warn : ℕ
health_warn = 2

abbrev pub health_error : ℕ
health_error = 3

abbrev pub health_stale : ℕ
health_stale = 4

pub record HealthState : Type 0 where
  pub header : Header
  pub robot_id : String
  pub state : ℕ
  pub summary : String
  pub mode : ℕ
  pub safety_state : ℕ
  pub locomotion_state : ℕ
  pub command_source : ℕ
  pub nav2_bridge_state : ℕ
  pub command_output_enabled : Bool
  pub nav2_output_enabled : Bool
  pub active_faults : List String
  pub active_warnings : List String
  pub stale_topics : List String
