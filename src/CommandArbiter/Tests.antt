-- ===== src/CommandArbiter/Tests.antt =====
-- command_arbiter_node.py at concrete inputs, some from its test_arbitration_rules.py.
use huma_ware.Common.{String, ◌≡◌, refl, ◌↔◌, true, false, some, List, [], ◌∷◌}
use huma_ware.Common.Int.{pos, negsuc}
use huma_ware.Common.Dict.{code_eq, get, put}
use huma_ware.Ros.Fixed.{Fixed, milli, nan, fixed_ops, fixed_laws, nan-IsNan}
use huma_ware.Ros.Twist.{TwistStamped, zero_vector}
use huma_ware.Msgs.ModeState.{mode_teleop, mode_autonomy}
use huma_ware.Msgs.SafetyState
use huma_ware.Msgs.SafetyState.{SafetyState}
use huma_ware.Msgs.CommandArbitrationState.{source_teleop}
use huma_ware.CommandArbiter.Select.{
  CandidateCommand, select_candidate, source_priority, first_fresh, eligible, clamp,
}
use huma_ware.CommandArbiter.Node.{Params, init, tick, limit_command, duration_msg}
use huma_ware.CommandArbiter.Priority.{IsReady, First, select_candidate-approves}
use huma_ware.CommandArbiter.Limits.{OutputLimited, tick-limited, limit_command-nan}
use huma_ware.CommandArbiter.Output.{IsBlockedOutput, tick-blocked}
use huma_ware.CommandArbiter.Heard.{Event, mode_state, safety_state, teleop, autonomy, run, step}
use huma_ware.CommandArbiter.Wiring.{SafetyAllows, IsLatest, tick-IsLatest}

abbrev params : Params Fixed
params = record {
  robot_id = "mock_001";
  command_timeout = pos 500_000_000;
  max_linear_velocity_mps = milli (pos 500);
  max_angular_velocity_radps = milli (pos 500);
  publish_stop_on_block = true;
}

abbrev forward : Fixed → TwistStamped Fixed
forward v = record {
  header = record { stamp = 0; frame_id = "base" };
  twist = record { linear = record zero_vector { x = v }; angular = zero_vector };
}

abbrev safe : SafetyState
safe = record {
  header = record { stamp = 0; frame_id = "" };
  robot_id = "mock_001";
  state = SafetyState.state_ok;
  estop_engaged = false;
  mrm_active = false;
  last_heartbeat = 0;
  active_faults = [];
  active_warnings = [];
}

abbrev history : List (Event Fixed)
history =
    safety_state safe
    ∷ mode_state mode_autonomy
    ∷ autonomy (forward (milli (pos 900))) 1_000_000_000
    ∷ teleop (forward (milli (pos 100))) 1_100_000_000
    ∷ []

-- The autonomy command is approved at the limit, although teleop comes first in the priorities.
autonomy_runs :
    (tick params 1_200_000_000 (run history init)).0
    ≡ some (record {
      header = record { stamp = 1_200_000_000; frame_id = "base" };
      twist = record { linear = record zero_vector { x = milli (pos 500) }; angular = zero_vector };
    })
unfolding tick run step select_candidate first_fresh eligible get put limit_command clamp
autonomy_runs = refl

tick-IsLatest_example :
    ((c : CandidateCommand Fixed)
      → SafetyAllows params 1_200_000_000 history
      → IsLatest params 1_200_000_000 history c
      → ((tick params 1_200_000_000 (run history init)).0
          ≡ some (limit_command params c.msg 1_200_000_000))
        × ((tick params 1_200_000_000 (run history init)).1.active_source ≡ c.source))
    × (((c : CandidateCommand Fixed)
          → SafetyAllows params 1_200_000_000 history
          → ¬ IsLatest params 1_200_000_000 history c)
        → IsBlockedOutput params 1_200_000_000
            (run history init)
            (tick params 1_200_000_000 (run history init)))
tick-IsLatest_example = tick-IsLatest params 1_200_000_000 history

tick-limited_example : OutputLimited params (tick params 1_200_000_000 (run history init)).0
tick-limited_example =
    tick-limited fixed_laws params 1_200_000_000 (run history init)
      (record { linear = (refl, refl); angular = (refl, refl) })

-- Before any callback nothing is approved, and nothing is published.
tick-blocked_example : IsBlockedOutput params 0 init (tick params 0 init)
tick-blocked_example = tick-blocked params 0 init (λ c h. cc (h.0.0))

limit_command-nan_example : (limit_command params (forward nan) 0).twist.linear.x ≡ milli (pos 500)
limit_command-nan_example = limit_command-nan fixed_laws params (forward nan) 0 nan-IsNan refl

abbrev teleop_command : CandidateCommand Fixed
teleop_command = record {
  source = source_teleop;
  name = "teleop";
  required_mode = mode_teleop;
  msg = forward (milli (pos 100));
  received_at = 5;
}

select_candidate-approves_example :
    (select_candidate mode_teleop true SafetyState.state_warn
        ((source_teleop, teleop_command) ∷ [])
        9
        (pos 4)
      ≡ (some teleop_command, "approved"))
    ↔ (IsReady mode_teleop 9
          (pos 4)
          ((source_teleop, teleop_command) ∷ [])
          true
          SafetyState.state_warn
        × First mode_teleop 9
            (pos 4)
            ((source_teleop, teleop_command) ∷ [])
            teleop_command
            source_priority
        × (◌≡◌ {A = String} "approved" "approved"))
select_candidate-approves_example =
    select_candidate-approves mode_teleop 9 (pos 4) ((source_teleop, teleop_command) ∷ []) true
      SafetyState.state_warn teleop_command "approved"

-- Minus one and a half seconds is -2 s and 500,000,000 ns.
negative_age :
    duration_msg (negsuc 1_499_999_999) ≡ record { sec = negsuc 1; nanosec = 500_000_000 }
unfolding duration_msg
negative_age = refl
