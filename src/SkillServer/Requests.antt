-- ===== src/SkillServer/Requests.antt =====
-- skill_server_node.py, lines 22 to 31 and 173 to 224: the decision on a request, and the commands.
use huma_ware.Common.{
  ℕ, String, Bool, true, false, ◌&&◌, not, Option, none, some, List, [], ◌∷◌, ◌==◌, elem, elem_str,
  str_eq, or_default, if◌then◌else◌,
}
use huma_ware.Ros.Float.{FloatOps}
use huma_ware.Ros.Time.{Time}
use huma_ware.Ros.Twist.{TwistStamped, zero_vector, zero_twist}
use huma_ware.Msgs.Capability
use huma_ware.Msgs.Capability.{Capability}
use huma_ware.Msgs.ModeState.{mode_ai_policy}
use huma_ware.Msgs.SafetyState.{state_fault, state_estop, state_mrm}
use huma_ware.Msgs.SkillExecutionState.{status_rejected, status_accepted}

abbrev pub executable_skills : List String
executable_skills = "stop" ∷ "walk_velocity" ∷ "turn_in_place" ∷ []

pub record SkillDecision : Type 0 where
  pub accepted : Bool
  pub message : String
  pub status : ℕ

abbrev pub unsafe_states : List ℕ
unsafe_states = state_fault ∷ state_estop ∷ state_mrm ∷ []

abbrev pub rejected : String → SkillDecision
rejected message = record { accepted = false; message = message; status = status_rejected }

unfoldable pub evaluate_request : String → Option Capability → ℕ → ℕ → SkillDecision
evaluate_request capability_name none mode safety = rejected "capability_not_found"
evaluate_request capability_name (some capability) mode safety =
    if not (elem_str capability_name executable_skills)
    then rejected "no_skill_handler"
    else if not (str_eq capability_name "stop") && elem safety unsafe_states
    then rejected "safety_state_blocks_skill"
    else if elem_str capability_name ("walk_velocity" ∷ "turn_in_place" ∷ [])
        && not (mode == mode_ai_policy)
    then rejected "skill_requires_ai_policy_mode"
    else if elem capability.state
        (Capability.state_unknown ∷ Capability.state_unavailable ∷ Capability.state_fault ∷ [])
    then rejected "capability_not_available"
    else record { accepted = true; message = "accepted"; status = status_accepted }

module _ {F : Type 0} ⦃o : FloatOps F⦄ where
  unfoldable pub make_stop_command : String → Time → TwistStamped F
  make_stop_command robot_id now = record {
    header = record { stamp = now; frame_id = robot_id };
    twist = zero_twist;
  }

  unfoldable pub sanitize_velocity_command : TwistStamped F → String → Time → Bool → TwistStamped F
  sanitize_velocity_command request robot_id now turn_only = record {
    header = record { stamp = now; frame_id = or_default request.header.frame_id robot_id };
    twist = record {
      linear =
          if not turn_only
          then record { x = request.twist.linear.x; y = request.twist.linear.y; z = o.float_zero }
          else zero_vector;
      angular = record zero_vector { z = request.twist.angular.z };
    };
  }
