-- ===== src/Msgs/MrmState.antt =====
-- src/humaware_msgs/msg/MRMState.msg
use huma_ware.Common.{ℕ, String, Bool}
use huma_ware.Ros.Time.{Duration}
use huma_ware.Ros.Twist.{Header}

abbrev pub state_none : ℕ
state_none = 0

abbrev pub state_stop : ℕ
state_stop = 1

abbrev pub state_stabilize : ℕ
state_stabilize = 2

abbrev pub state_sit : ℕ
state_sit = 3

abbrev pub state_power_limited : ℕ
state_power_limited = 4

abbrev pub state_request_teleop : ℕ
state_request_teleop = 5

abbrev pub state_fault : ℕ
state_fault = 6

pub record MrmState : Type 0 where
  pub header : Header
  pub robot_id : String
  pub state : ℕ
  pub reason : String
  pub timeout : Duration
  pub operator_intervention_requested : Bool
