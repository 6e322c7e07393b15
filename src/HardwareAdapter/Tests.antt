-- ===== src/HardwareAdapter/Tests.antt =====
-- template_adapter_node.py at concrete inputs.
use huma_ware.Common.{◌≡◌, refl, some, true, false, List, [], ◌∷◌}
use huma_ware.Common.Int.{pos}
use huma_ware.Ros.Fixed.{Fixed, fixed_ops}
use huma_ware.Ros.Twist.{TwistStamped, zero_twist}
use huma_ware.Msgs.ModeState.{mode_teleop}
use huma_ware.Msgs.SafetyState
use huma_ware.Msgs.CommandArbitrationState.{CommandArbitrationState, source_teleop}
use huma_ware.HardwareAdapter.Gate.{gate_open_reason, should_release_output}
use huma_ware.HardwareAdapter.Node.{Params, apply_to_hardware, stop_hardware, init, tick}
use huma_ware.HardwareAdapter.Release.{
  IsOpen, Event, safety_state, mode_state, approved_command, arbitration_state, run, step,
}
use huma_ware.HardwareAdapter.History.{heard_input, message_of, last, approved, tick-heard}

abbrev params : Params
params = record {
  robot_id = "mock_001";
  identity = record {
    robot_model = "unset";
    firmware_version = "unset";
    sdk_version = "unset";
    git_sha = "unset";
    launch_profile = "unset";
  };
  approved_command_timeout = pos 500;
  arbitration_state_timeout = pos 1_000;
}

abbrev command : TwistStamped Fixed
command = record { header = record { stamp = 10; frame_id = "base" }; twist = zero_twist }

abbrev arbitration : CommandArbitrationState
arbitration = record {
  header = record { stamp = 10; frame_id = "" };
  robot_id = "mock_001";
  active_source = source_teleop;
  active_source_name = "teleop";
  active_mode = mode_teleop;
  safety_state = SafetyState.state_ok;
  output_enabled = true;
  stop_command_published = false;
  last_command_time = 10;
  command_age = record { sec = pos 0; nanosec = 0 };
  reason = "approved";
}

abbrev events : List (Event Fixed)
events =
    safety_state SafetyState.state_ok
    ∷ mode_state mode_teleop
    ∷ arbitration_state arbitration 100
    ∷ approved_command command 110
    ∷ []

applies : (tick params 200 (run events init)).1 ≡ apply_to_hardware command gate_open_reason
unfolding tick run step should_release_output
applies = refl

stops_when_stale : (tick params 700 (run events init)).1 ≡ stop_hardware "approved_command_stale"
unfolding tick run step should_release_output
stops_when_stale = refl

tick-heard_example :
    (IsOpen (heard_input params 200 events)
      → (msg : TwistStamped Fixed) × (message_of (last approved events) ≡ some msg)
        × ((tick params 200 (run events init)).1 ≡ apply_to_hardware msg gate_open_reason))
    × (¬ IsOpen (heard_input params 200 events)
        → (tick params 200 (run events init)).1
          ≡ stop_hardware (should_release_output (heard_input params 200 events)).1)
tick-heard_example = tick-heard params 200 events
