-- ===== src/Locomotion/Node.antt =====
-- mock_locomotion_adapter_node.py, lines 15 to 201: the node's state, its callbacks and its tick.
use huma_ware.Common.{
  ℕ, String, Bool, true, false, ◌&&◌, ◌||◌, not, Option, none, some, List, [], ◌∷◌, ◌==◌, elem,
  if◌then◌else◌,
}
use huma_ware.Common.Int.{ltb_ℤ}
use huma_ware.Ros.Float.{FloatOps}
use huma_ware.Ros.Time.{Time, Duration, since, older_than}
use huma_ware.Ros.Twist.{TwistStamped}
use huma_ware.Msgs.ModeState.{
  mode_inactive, mode_maintenance, mode_teleop, mode_autonomy, mode_ai_policy, mode_fault,
  mode_shutdown,
}
use huma_ware.Msgs.SafetyState
use huma_ware.Msgs.LocomotionState
use huma_ware.Msgs.LocomotionState.{LocomotionState}

pub record Params (F : Type 0) : Type 0 where
  pub robot_id : String
  pub command_timeout : Duration
  pub stop_settle_time : Duration
  pub walk_epsilon : F
  pub max_safe_linear_velocity_mps : F
  pub max_safe_angular_velocity_radps : F

pub record Locomotion (F : Type 0) : Type 0 where
  pub active_mode : ℕ
  pub safety_state : ℕ
  pub last_command_time : Option Time
  pub stop_started_at : Option Time
  pub state : ℕ
  pub linear_velocity_mps : F
  pub angular_velocity_radps : F
  pub constraints : List String

-- now - started >= settle
abbrev pub has_settled : Time → Option Time → Duration → Bool
has_settled now none settle = false
has_settled now (some started) settle = not (ltb_ℤ (since now started) settle)

-- now - last > timeout
abbrev pub is_stale : Time → Option Time → Duration → Bool
is_stale now none timeout = false
is_stale now (some last) timeout = older_than now last timeout

abbrev pub or_now : Time → Option Time → Option Time
or_now now none = some now
or_now now (some t) = some t

abbrev pub is_missing : Option Time → Bool
is_missing none = true
is_missing (some _) = false

module _ {F : Type 0} where
  unfoldable pub is_output_blocked : Locomotion F → Bool
  is_output_blocked s =
      not (elem s.active_mode (mode_teleop ∷ mode_autonomy ∷ mode_ai_policy ∷ []))
      || not (elem s.safety_state (SafetyState.state_ok ∷ SafetyState.state_warn ∷ []))

  unfoldable pub settle_stop_if_ready : Params F → Time → Locomotion F → Locomotion F
  unfolding is_output_blocked
  settle_stop_if_ready p now s =
      if not (s.state == LocomotionState.state_stopping)
      then s
      else if has_settled now s.stop_started_at p.stop_settle_time
      then record s {
        state = LocomotionState.state_standing;
        constraints = if not (is_output_blocked s) then [] else s.constraints;
      }
      else s

  unfoldable pub begin_stop : Params F → Time → String → Locomotion F → Locomotion F
  unfolding settle_stop_if_ready
  begin_stop p now reason s =
      if elem s.active_mode (mode_inactive ∷ mode_maintenance ∷ [])
      then record s {
        state = LocomotionState.state_inactive;
        constraints = "mode_inactive" ∷ [];
        stop_started_at = none;
      }
      else settle_stop_if_ready p now (record s {
        stop_started_at =
            if not
              (elem s.state (LocomotionState.state_stopping ∷ LocomotionState.state_standing ∷ []))
            then some now
            else or_now now s.stop_started_at;
        state = LocomotionState.state_stopping;
        constraints = reason ∷ [];
      })

  unfoldable pub on_mode_state : ℕ → Locomotion F → Locomotion F
  on_mode_state mode s = record s { active_mode = mode }

  unfoldable pub on_safety_state : ℕ → Locomotion F → Locomotion F
  on_safety_state state s = record s { safety_state = state }

module _ {F : Type 0} ⦃o : FloatOps F⦄ where
  abbrev pub init : Locomotion F
  init = record {
    active_mode = mode_inactive;
    safety_state = SafetyState.state_unknown;
    last_command_time = none;
    stop_started_at = none;
    state = LocomotionState.state_inactive;
    linear_velocity_mps = o.float_zero;
    angular_velocity_radps = o.float_zero;
    constraints = "waiting_for_mode" ∷ "waiting_for_safety_state" ∷ [];
  }

  abbrev pub halted : Locomotion F → Locomotion F
  halted s = record s { linear_velocity_mps = o.float_zero; angular_velocity_radps = o.float_zero }

  unfoldable pub on_approved_cmd : Params F → Time → TwistStamped F → Locomotion F → Locomotion F
  on_approved_cmd p now msg s =
      let heard = record s { last_command_time = some now } in
      let linear = msg.twist.linear.x in
      let angular = msg.twist.angular.z in
      if o.le (o.abs linear) p.walk_epsilon && o.le (o.abs angular) p.walk_epsilon
      then begin_stop p now "approved_stop_command" (halted heard)
      else if is_output_blocked heard
      then begin_stop p now "runtime_blocks_output" (halted heard)
      else record heard {
        stop_started_at = none;
        linear_velocity_mps = linear;
        angular_velocity_radps = angular;
        state =
            if o.lt p.walk_epsilon (o.abs linear)
            then LocomotionState.state_walking
            else LocomotionState.state_turning;
        constraints = [];
      }

  unfoldable pub update_state_for_runtime : Params F → Time → Locomotion F → Locomotion F
  update_state_for_runtime p now s =
      if elem s.active_mode (mode_inactive ∷ mode_maintenance ∷ [])
      then record (halted s) {
        state = LocomotionState.state_inactive;
        constraints = "mode_inactive" ∷ [];
        stop_started_at = none;
      }
      else if elem s.active_mode (mode_fault ∷ mode_shutdown ∷ [])
      then begin_stop p now "mode_blocks_locomotion" (halted s)
      else if elem s.safety_state (
          SafetyState.state_unknown ∷ SafetyState.state_fault ∷ SafetyState.state_estop
          ∷ SafetyState.state_mrm ∷ [])
      then begin_stop p now "safety_blocks_locomotion" (halted s)
      else if is_missing s.last_command_time
      then record s {
        state = LocomotionState.state_standing;
        constraints = "waiting_for_command" ∷ [];
      }
      else if is_stale now s.last_command_time p.command_timeout
      then begin_stop p now "command_timeout" (halted s)
      else settle_stop_if_ready p now s

  -- `_publish_state`
  unfoldable pub state_message : Params F → Time → Locomotion F → LocomotionState F
  state_message p now s = record {
    header = record { stamp = now; frame_id = p.robot_id };
    robot_id = p.robot_id;
    state = s.state;
    active_adapter = "mock";
    commanded_linear_velocity_mps = o.to_single s.linear_velocity_mps;
    commanded_angular_velocity_radps = o.to_single s.angular_velocity_radps;
    max_safe_linear_velocity_mps = o.to_single p.max_safe_linear_velocity_mps;
    max_safe_angular_velocity_radps = o.to_single p.max_safe_angular_velocity_radps;
    balance_required = true;
    navigation_control_active = s.active_mode == mode_autonomy;
    active_constraints = s.constraints;
  }

  unfoldable pub tick : Params F → Time → Locomotion F → Locomotion F × LocomotionState F
  unfolding update_state_for_runtime state_message
  tick p now s = let s' = update_state_for_runtime p now s in (s', state_message p now s')
