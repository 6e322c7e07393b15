-- ===== src/Runtime/Tests.antt =====
-- The safety manager, the command arbiter and a hardware adapter together, at concrete inputs.
use huma_ware.Common.{◌≡◌, refl, length, true, false, List, [], ◌∷◌}
use huma_ware.Common.Int.{pos}
use huma_ware.Common.Dict.{get, put}
use huma_ware.Ros.Fixed.{Fixed, milli, fixed_ops, fixed_laws}
use huma_ware.Ros.Twist.{TwistStamped, zero_vector}
use huma_ware.Msgs.ModeState.{mode_teleop}
use huma_ware.Msgs.SafetyState.{SafetyState, state_mrm}
use huma_ware.SafetyManager.Watchdog.{evaluate_watchdogs}
use huma_ware.SafetyManager.Reason.{select_mrm_reason}
use huma_ware.SafetyManager.Node as Safety
use huma_ware.SafetyManager.Latch as Latch
use huma_ware.SafetyManager.Latch.{timer, trigger_mrm}
use huma_ware.CommandArbiter.Select.{select_candidate, first_fresh, eligible}
use huma_ware.CommandArbiter.Node as Arbiter
use huma_ware.CommandArbiter.Limits.{IsLimited, IsSane}
use huma_ware.HardwareAdapter.Gate.{gate_open_reason, should_release_output}
use huma_ware.HardwareAdapter.Node as Hardware
use huma_ware.HardwareAdapter.Node.{apply_to_hardware, stop_hardware, gate_input, tick}
use huma_ware.HardwareAdapter.Release.{IsOpen}
use huma_ware.Runtime.System.{
  System, hear, lose, Event, safety_manager, arbiter_mode, arbiter_teleop, arbiter_safety,
  arbiter_tick, hardware_mode, hardware_safety, hardware_mrm, hardware_approved,
  hardware_arbitration, init, step, run,
}
use huma_ware.Runtime.Waiting.{left}
use huma_ware.Runtime.Stop.{triggered, triggered-stops}
use huma_ware.Runtime.Limits.{tick-IsLimited}

abbrev limits : Arbiter.Params Fixed
limits = record {
  robot_id = "mock_001";
  command_timeout = pos 500;
  max_linear_velocity_mps = milli (pos 500);
  max_angular_velocity_radps = milli (pos 500);
  publish_stop_on_block = true;
}

limits-IsSane : IsSane limits
limits-IsSane = record { linear = (refl, refl); angular = (refl, refl) }

abbrev adapter : Hardware.Params
adapter = record {
  robot_id = "mock_001";
  identity = record {
    robot_model = "unset";
    firmware_version = "unset";
    sdk_version = "unset";
    git_sha = "unset";
    launch_profile = "unset";
  };
  approved_command_timeout = pos 500;
  arbitration_state_timeout = pos 1_000;
}

abbrev forward : Fixed → TwistStamped Fixed
forward v = record {
  header = record { stamp = 0; frame_id = "base" };
  twist = record { linear = record zero_vector { x = v }; angular = zero_vector };
}

-- The operator drives faster than the limit; all messages arrive.
abbrev drive : List (Event Fixed)
drive =
    safety_manager (timer Safety.default_params 100)
    ∷ arbiter_mode mode_teleop
    ∷ arbiter_teleop (forward (milli (pos 900))) 110
    ∷ arbiter_safety hear
    ∷ arbiter_tick 120
    ∷ hardware_mode mode_teleop
    ∷ hardware_safety hear
    ∷ hardware_mrm hear
    ∷ hardware_approved hear 130
    ∷ hardware_arbitration hear 131
    ∷ []

abbrev at_limit : TwistStamped Fixed
at_limit = Arbiter.limit_command limits (forward (milli (pos 900))) 120

applied :
    (tick adapter 140 (run limits drive init).hardware).1
    ≡ apply_to_hardware at_limit gate_open_reason
unfolding run step tick should_release_output Latch.step Arbiter.tick select_candidate
    Arbiter.on_safety_state Safety.publish_state evaluate_watchdogs Arbiter.on_teleop
    Arbiter.on_mode_state first_fresh eligible get put Hardware.on_arbitration_state
    Hardware.on_approved_command Hardware.on_mrm_state Hardware.on_safety_state
    Hardware.on_mode_state
applied = refl

tick-IsLimited_example :
    IsLimited limits at_limit.twist
    × IsOpen (gate_input adapter 140 (run limits drive init).hardware)
tick-IsLimited_example =
    tick-IsLimited fixed_laws limits limits-IsSane drive adapter 140 at_limit gate_open_reason
      applied

abbrev driving : System Fixed
driving = run limits drive init

-- One older safety state still waits for the adapter when the MRM is triggered; it is lost.
abbrev waiting : System Fixed
waiting = step limits (safety_manager (timer Safety.default_params 200)) driving

abbrev request : Safety.Request
request = record { requester = "operator"; reason = "" }

abbrev stop_state : SafetyState
stop_state = record {
  header = record { stamp = 210; frame_id = "mock_001" };
  robot_id = "mock_001";
  state = state_mrm;
  estop_engaged = false;
  mrm_active = true;
  last_heartbeat = 210;
  active_faults = [];
  active_warnings = "minimal_risk_maneuver_active" ∷ "manual_mrm_trigger" ∷ [];
}

abbrev flush : List (Event Fixed)
flush = hardware_safety lose ∷ []

one_waits :
    (run limits flush
      (triggered limits Safety.default_params 210 request waiting)).safety_to_hardware
    ≡ stop_state ∷ []
unfolding run step Latch.step Arbiter.tick select_candidate Arbiter.on_safety_state
    Safety.publish_state evaluate_watchdogs Arbiter.on_teleop Arbiter.on_mode_state first_fresh
    eligible get put Hardware.on_arbitration_state Hardware.on_approved_command
    Hardware.on_mrm_state Hardware.on_safety_state Hardware.on_mode_state Safety.handle_trigger_mrm
    select_mrm_reason
one_waits = refl

taken : left flush (length waiting.safety_to_hardware) ≡ 0
unfolding run step Latch.step Arbiter.tick select_candidate Arbiter.on_safety_state
    Safety.publish_state evaluate_watchdogs Arbiter.on_teleop Arbiter.on_mode_state first_fresh
    eligible get put Hardware.on_arbitration_state Hardware.on_approved_command
    Hardware.on_mrm_state Hardware.on_safety_state Hardware.on_mode_state
taken = refl

triggered-stops_example :
    let heard =
      step limits
        (hardware_safety hear)
        (run limits flush (triggered limits Safety.default_params 210 request waiting)) in
    let s = run limits (arbiter_tick 220 ∷ hardware_approved hear 221 ∷ []) heard in
    (tick adapter 230 s.hardware).1 ≡ stop_hardware "safety_state_blocks_output"
triggered-stops_example =
    triggered-stops limits Safety.default_params 210 request waiting flush
      (arbiter_tick 220 ∷ hardware_approved hear 221 ∷ []) stop_state [] adapter 230 (tt, tt)
      (tt, (tt, tt)) taken one_waits
