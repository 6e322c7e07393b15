-- ===== src/Msgs/BalanceState.antt =====
-- src/humaware_msgs/msg/BalanceState.msg, the fields that the nodes set.
use huma_ware.Common.{ℕ, String}
use huma_ware.Ros.Twist.{Header}

abbrev pub state_stable : ℕ
state_stable = 1

pub record BalanceState (F : Type 0) : Type 0 where
  pub header : Header
  pub robot_id : String
  pub state : ℕ
  pub stability_margin : F
