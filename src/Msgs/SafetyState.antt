-- ===== src/Msgs/SafetyState.antt =====
-- src/humaware_msgs/msg/SafetyState.msg
use huma_ware.Common.{ℕ, String, Bool, List}
use huma_ware.Ros.Time.{Time}
use huma_ware.Ros.Twist.{Header}

abbrev pub state_unknown : ℕ
state_unknown = 0

abbrev pub state_ok : ℕ
state_ok = 1

abbrev pub state_warn : ℕ
state_warn = 2

abbrev pub state_fault : ℕ
state_fault = 3

abbrev pub state_estop : ℕ
state_estop = 4

abbrev pub state_mrm : ℕ
state_mrm = 5

pub record SafetyState : Type 0 where
  pub header : Header
  pub robot_id : String
  pub state : ℕ
  pub estop_engaged : Bool
  pub mrm_active : Bool
  pub last_heartbeat : Time
  pub active_faults : List String
  pub active_warnings : List String
