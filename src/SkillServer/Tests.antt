-- ===== src/SkillServer/Tests.antt =====
-- skill_server_node.py at concrete inputs.
use huma_ware.Common.{◌≡◌, refl, false, some, [], ◌∷◌}
use huma_ware.Common.Int.{pos}
use huma_ware.Common.Dict.{get, text_key}
use huma_ware.Ros.Fixed.{Fixed, milli, fixed_ops}
use huma_ware.Ros.Twist.{zero_vector}
use huma_ware.Msgs.Capability.{Capability, state_idle}
use huma_ware.Msgs.ModeState.{mode_ai_policy}
use huma_ware.Msgs.SafetyState.{state_ok, state_estop}
use huma_ware.SkillServer.Node.{SkillServer, ExecuteSkillRequest, Call, on_execute_skill, init}
use huma_ware.SkillServer.Execution.{Served, on_execute_skill-Served}

abbrev turning : Capability
turning = record {
  name = "turn_in_place";
  state = state_idle;
  required_mode = "ai_policy";
  owner_node = "mock_robot";
  required_hardware = [];
  input_type = "";
  output_type = "";
  timeout = record { sec = pos 1; nanosec = 0 };
  safety_constraints = [];
  recovery_behavior = "";
}

abbrev server : SkillServer
server = record (init "mock_001" 3) {
  capabilities = ("turn_in_place", turning) ∷ [];
  mode = mode_ai_policy;
  safety = state_ok;
}

abbrev request : ExecuteSkillRequest Fixed
request = record {
  capability_name = "turn_in_place";
  requester = "op";
  dry_run = false;
  velocity_command = record {
    header = record { stamp = 1; frame_id = "base" };
    twist = record {
      linear = record zero_vector { x = milli (pos 700) };
      angular = record zero_vector { z = milli (pos 300) };
    };
  };
}

abbrev call : Call
call = record { execution_id = "a"; commanded_at = 20; published_at = 21 }

turns_without_walking :
    (on_execute_skill "mock_001" call request server).command
    ≡ some (record {
      header = record { stamp = 20; frame_id = "base" };
      twist = record { linear = zero_vector; angular = record zero_vector { z = milli (pos 300) } };
    })
unfolding on_execute_skill get
turns_without_walking = refl

refuses_in_estop :
    (on_execute_skill "mock_001" call request
      (record server { safety = state_estop })).response.message
    ≡ "safety_state_blocks_skill"
unfolding on_execute_skill get
refuses_in_estop = refl

on_execute_skill-Served_example :
    Served "mock_001" call server request (on_execute_skill "mock_001" call request server)
on_execute_skill-Served_example = on_execute_skill-Served "mock_001" call request server
