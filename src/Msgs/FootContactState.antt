-- ===== src/Msgs/FootContactState.antt =====
-- src/humaware_msgs/msg/FootContactState.msg, the fields that the nodes set.
use huma_ware.Common.{String, Bool}
use huma_ware.Ros.Twist.{Header}

pub record FootContactState (F : Type 0) : Type 0 where
  pub header : Header
  pub robot_id : String
  pub left_contact : Bool
  pub right_contact : Bool
  pub left_normal_force_n : F
  pub right_normal_force_n : F
