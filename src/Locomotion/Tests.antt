-- ===== src/Locomotion/Tests.antt =====
-- mock_locomotion_adapter_node.py at concrete inputs.
use huma_ware.Common.{◌≡◌, ◌≢◌, refl, some, List, [], ◌∷◌}
use huma_ware.Common.Int.{pos}
use huma_ware.Ros.Fixed.{Fixed, milli, fixed_ops}
use huma_ware.Ros.Twist.{TwistStamped, zero_vector, zero_twist}
use huma_ware.Msgs.ModeState.{mode_unknown, mode_teleop}
use huma_ware.Msgs.SafetyState
use huma_ware.Msgs.LocomotionState
use huma_ware.Locomotion.Node.{
  Params, Locomotion, init, is_output_blocked, settle_stop_if_ready, begin_stop, on_approved_cmd,
  tick,
}
use huma_ware.Locomotion.Motion.{
  Event, mode_state, safety_state, approved_cmd, timer, IsMoving, IsConsistent, MayMove, step, run,
  run-init-IsConsistent, tick-MayMove,
}
use huma_ware.Locomotion.Constraints.{IsExplained, tick-IsExplained}
use huma_ware.Locomotion.Settling.{run-settles}

abbrev params : Params Fixed
params = record {
  robot_id = "mock_001";
  command_timeout = pos 500;
  stop_settle_time = pos 300;
  walk_epsilon = milli (pos 10);
  max_safe_linear_velocity_mps = milli (pos 250);
  max_safe_angular_velocity_radps = milli (pos 500);
}

abbrev forward : TwistStamped Fixed
forward = record {
  header = record { stamp = 10; frame_id = "base" };
  twist = record { linear = record zero_vector { x = milli (pos 200) }; angular = zero_vector };
}

abbrev still : TwistStamped Fixed
still = record { header = record { stamp = 10; frame_id = "base" }; twist = zero_twist }

abbrev walking : Locomotion Fixed
walking = record (init {F = Fixed}) {
  active_mode = mode_teleop;
  safety_state = SafetyState.state_ok;
  last_command_time = some 100;
  state = LocomotionState.state_walking;
  linear_velocity_mps = milli (pos 200);
  constraints = [];
}

abbrev stopping : Locomotion Fixed
stopping = record (init {F = Fixed}) {
  active_mode = mode_teleop;
  safety_state = SafetyState.state_ok;
  last_command_time = some 100;
  stop_started_at = some 150;
  state = LocomotionState.state_stopping;
  constraints = "approved_stop_command" ∷ [];
}

abbrev started : List (Event Fixed)
started =
    mode_state mode_teleop
    ∷ safety_state SafetyState.state_ok
    ∷ approved_cmd params 100 forward
    ∷ []

walks : run started init ≡ walking
unfolding run step on_approved_cmd is_output_blocked
walks = refl

stops_at_timeout : (tick params 700 walking).0.state ≡ LocomotionState.state_stopping
unfolding tick begin_stop
stops_at_timeout = refl

-- `tick` has no test for a mode that is not one of the seven.
keeps_walking_in_unknown_mode :
    (tick params 200 (record walking { active_mode = mode_unknown })).0
    ≡ record walking { active_mode = mode_unknown }
unfolding tick settle_stop_if_ready
keeps_walking_in_unknown_mode = refl

run-init-IsConsistent_example : IsConsistent (run started init)
run-init-IsConsistent_example = run-init-IsConsistent started

walking-IsConsistent : IsConsistent walking
walking-IsConsistent = record { still = λ n. absurd (n refl); silent = λ e. cc; stopping = λ e. cc }

walks_on : IsMoving (tick params 200 walking).0
unfolding tick settle_stop_if_ready
walks_on = refl

tick-MayMove_example :
    MayMove params 200 walking × IsMoving walking × ((tick params 200 walking).0 ≡ walking)
tick-MayMove_example = tick-MayMove params 200 walking walks_on

tick-IsExplained_example : IsExplained (tick params 700 walking).0
tick-IsExplained_example = tick-IsExplained params 700 walking (refl, refl)

-- Two commands to stop, a safety state and timers, the stop having begun at 150.
abbrev quiet : List (Event Fixed)
quiet =
    approved_cmd params 200 still
    ∷ timer params 250
    ∷ safety_state SafetyState.state_warn
    ∷ approved_cmd params 400 still
    ∷ timer params 410
    ∷ []

run-settles_example :
    (tick params 450 (run quiet stopping)).0.state ≢ LocomotionState.state_stopping
run-settles_example =
    run-settles params 450 150 quiet stopping refl refl
      ((refl, refl), (tt, (tt, ((refl, refl), (tt, tt))))) refl
