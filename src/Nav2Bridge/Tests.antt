-- ===== src/Nav2Bridge/Tests.antt =====
-- nav2_bridge_node.py at concrete inputs.
use huma_ware.Common.{◌≡◌, refl, ◌↔◌, false, true, some, or_default}
use huma_ware.Common.Int.{pos}
use huma_ware.Ros.Fixed.{Fixed, fixed_ops}
use huma_ware.Ros.Time.{older_than}
use huma_ware.Ros.Twist.{TwistStamped, zero_twist}
use huma_ware.Msgs.ModeState.{mode_autonomy, mode_teleop}
use huma_ware.Msgs.SafetyState.{state_ok}
use huma_ware.Msgs.LocomotionState.{state_standing}
use huma_ware.Msgs.NavigationBridgeState.{state_blocked}
use huma_ware.Nav2Bridge.Node.{Params, Nav2Bridge, init, on_twist, on_twist_stamped, tick}
use huma_ware.Nav2Bridge.Forwarding.{IsReady, on_twist_stamped-forwards}

abbrev params : Params
params = record {
  robot_id = "mock_001";
  enabled = true;
  command_timeout = pos 750_000_000;
  input_frame_id = "nav2";
}

abbrev command : TwistStamped Fixed
command = record { header = record { stamp = 7; frame_id = "" }; twist = zero_twist }

abbrev sent : TwistStamped Fixed
sent = record { header = record { stamp = 200; frame_id = "nav2" }; twist = zero_twist }

abbrev ready : Nav2Bridge Fixed
ready = record (init {F = Fixed}) {
  active_mode = mode_autonomy;
  safety_state = state_ok;
  locomotion_state = state_standing;
  last_input_time = some 100;
  latest_command = some command;
}

forwards : (on_twist params 200 zero_twist ready).1 ≡ some sent
unfolding on_twist
forwards = refl

blocks_in_teleop :
    (tick params 200 (record ready { active_mode = mode_teleop })).1.state ≡ state_blocked
unfolding tick
blocks_in_teleop = refl

on_twist_stamped-forwards_example : ((on_twist_stamped params 200 command ready).1 ≡ some sent) ↔ (
    IsReady params ready
    × (older_than 200 200 params.command_timeout ≡ false)
    × (sent.twist ≡ command.twist)
    × (sent.header.stamp ≡ 200)
    × (sent.header.frame_id ≡ or_default command.header.frame_id params.input_frame_id))
on_twist_stamped-forwards_example = on_twist_stamped-forwards params 200 command sent ready refl
