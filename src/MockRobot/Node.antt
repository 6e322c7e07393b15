-- ===== src/MockRobot/Node.antt =====
-- mock_robot_node.py, lines 19 to 91: the node's state, its callbacks and what it publishes. `whole` is the
-- float of a whole number, for the constants of the code.
use huma_ware.Common.{ℕ, String, true, false, [], ◌∷◌}
use huma_ware.Ros.Time.{Time}
use huma_ware.Ros.Twist.{Header}
use huma_ware.Msgs.ModeState.{mode_inactive}
use huma_ware.Msgs.SafetyState
use huma_ware.Msgs.LocomotionState
use huma_ware.Msgs.BalanceState.{BalanceState, state_stable}
use huma_ware.Msgs.FootContactState.{FootContactState}
use huma_ware.Msgs.HumanoidState.{HumanoidState}

-- The numbers are those of the messages, whose fields are float32: `battery_percentage` is the parameter
-- as such a field keeps it.
pub record Params (F : Type 0) : Type 0 where
  pub robot_id : String
  pub battery_percentage : F

pub record MockRobot : Type 0 where
  pub active_mode : ℕ
  pub locomotion_state : ℕ
  pub safety_state : ℕ

abbrev pub init : MockRobot
init = record {
  active_mode = mode_inactive;
  locomotion_state = LocomotionState.state_unknown;
  safety_state = SafetyState.state_unknown;
}

unfoldable pub on_mode_state : ℕ → MockRobot → MockRobot
on_mode_state mode s = record s { active_mode = mode }

unfoldable pub on_locomotion_state : ℕ → MockRobot → MockRobot
on_locomotion_state state s = record s { locomotion_state = state }

unfoldable pub on_safety_state : ℕ → MockRobot → MockRobot
on_safety_state state s = record s { safety_state = state }

abbrev pub header : {F : Type 0} → Params F → Time → Header
header p now = record { stamp = now; frame_id = p.robot_id }

module _ {F : Type 0} (whole : ℕ → F) where
  unfoldable pub balance : Params F → Header → BalanceState F
  balance p h = record {
    header = h;
    robot_id = p.robot_id;
    state = state_stable;
    stability_margin = whole 1;
  }

  unfoldable pub foot_contact : Params F → Header → FootContactState F
  foot_contact p h = record {
    header = h;
    robot_id = p.robot_id;
    left_contact = true;
    right_contact = true;
    left_normal_force_n = whole 300;
    right_normal_force_n = whole 300;
  }

  unfoldable pub humanoid : Params F → Header → BalanceState F → MockRobot → HumanoidState F
  humanoid p h balance_state s = record {
    header = h;
    robot_id = p.robot_id;
    mode = s.active_mode;
    locomotion_state = s.locomotion_state;
    safety_state = s.safety_state;
    balance_state = balance_state.state;
    battery_percentage = p.battery_percentage;
    cpu_temperature_c = whole 40;
    operator_present = false;
    active_capabilities = "stand" ∷ "stop" ∷ "walk_velocity" ∷ [];
  }

  -- `_publish_state`: the three messages, in the order in which they are published.
  unfoldable pub publish_state :
      Params F → Time → MockRobot → BalanceState F × FootContactState F × HumanoidState F
  unfolding balance foot_contact humanoid
  publish_state p now s =
      let b = balance p (header p now) in
      (b, foot_contact p (header p now), humanoid p (header p now) b s)
