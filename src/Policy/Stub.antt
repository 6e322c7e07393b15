-- ===== src/Policy/Stub.antt =====
-- policy_provider_stub_node.py, lines 20 to 103: its copy of the gate, its state, callbacks and tick.
use huma_ware.Common.{
  ℕ, String, Bool, true, false, not, Option, none, some, List, [], ◌∷◌, ◌==◌, elem, if◌then◌else◌,
}
use huma_ware.Ros.Float.{FloatOps}
use huma_ware.Ros.Time.{Time}
use huma_ware.Ros.Twist.{TwistStamped, zero_vector}
use huma_ware.Msgs.ModeState.{mode_inactive, mode_ai_policy}
use huma_ware.Msgs.SafetyState.{state_unknown, state_ok, state_warn}

abbrev pub safe_for_policy : List ℕ
safe_for_policy = state_ok ∷ state_warn ∷ []

unfoldable pub should_emit_candidate : Bool → ℕ → ℕ → Bool → Bool × String
should_emit_candidate enabled active_mode safety_state safety_seen =
    if not enabled
    then (false, "policy_disabled_by_parameter")
    else if not safety_seen
    then (false, "waiting_for_safety_state")
    else if not (elem safety_state safe_for_policy)
    then (false, "safety_state_blocks_policy")
    else if not (active_mode == mode_ai_policy)
    then (false, "active_mode_not_ai_policy")
    else (true, "policy_candidate_emitted")

pub record Params (F : Type 0) : Type 0 where
  pub robot_id : String
  pub enabled : Bool
  pub linear_x_mps : F
  pub angular_z_radps : F

pub record Provider : Type 0 where
  pub active_mode : ℕ
  pub safety_state : ℕ
  pub safety_seen : Bool

abbrev pub init : Provider
init = record { active_mode = mode_inactive; safety_state = state_unknown; safety_seen = false }

unfoldable pub on_mode : ℕ → Provider → Provider
on_mode mode s = record s { active_mode = mode }

unfoldable pub on_safety : ℕ → Provider → Provider
on_safety state s = record s { safety_state = state; safety_seen = true }

module _ {F : Type 0} ⦃o : FloatOps F⦄ where
  -- The command that a tick publishes, if it does.
  unfoldable pub tick : Params F → Time → Provider → Option (TwistStamped F)
  unfolding should_emit_candidate
  tick p now s =
      let gate = should_emit_candidate p.enabled s.active_mode s.safety_state s.safety_seen in
      if not (gate.0)
      then none
      else some (record {
        header = record { stamp = now; frame_id = p.robot_id };
        twist = record {
          linear = record zero_vector { x = p.linear_x_mps };
          angular = record zero_vector { z = p.angular_z_radps };
        };
      })
