-- ===== src/Policy/Scripted.antt =====
-- policy_provider_scripted_node.py, lines 28 to 144: the gate, the node's state, callbacks and tick.
use huma_ware.Common.{
  ℕ, String, Bool, true, false, not, Option, none, some, List, [], ◌∷◌, ◌==◌, elem, if◌then◌else◌,
}
use huma_ware.Ros.Float.{FloatOps}
use huma_ware.Ros.Time.{Time}
use huma_ware.Ros.Twist.{TwistStamped, zero_vector}
use huma_ware.Msgs.ModeState.{mode_inactive, mode_ai_policy}
use huma_ware.Msgs.SafetyState.{state_unknown, state_ok, state_warn}
use huma_ware.Policy.Plan.{
  Waypoint, WaypointPlan, PlanProgress, Outcome, value_error, out_of_fuel, advanced,
  initial_progress, advance_progress, current_command,
}

abbrev pub safe_for_policy : List ℕ
safe_for_policy = state_ok ∷ state_warn ∷ []

unfoldable pub should_emit_candidate : Bool → ℕ → ℕ → Bool → Bool × String
should_emit_candidate enabled active_mode safety_state safety_seen =
    if not enabled
    then (false, "policy_disabled_by_parameter")
    else if not safety_seen
    then (false, "waiting_for_safety_state")
    else if not (elem safety_state safe_for_policy)
    then (false, "safety_state_blocks_policy")
    else if not (active_mode == mode_ai_policy)
    then (false, "active_mode_not_ai_policy")
    else (true, "policy_candidate_emitted")

pub record Params : Type 0 where
  pub robot_id : String
  pub enabled : Bool

-- `period` is `1.0 / self._publish_rate`.
pub record Provider (F : Type 0) : Type 0 where
  pub active_mode : ℕ
  pub safety_state : ℕ
  pub safety_seen : Bool
  pub plan : WaypointPlan F
  pub progress : PlanProgress F
  pub period : F

-- A tick returns, with or without a command; or an exception leaves it; or its loop goes on.
pub data Tick (F : Type 0) : Type 0 where
  returned : Provider F → Option (TwistStamped F) → Tick F
  raised : Tick F
  hung : Tick F

module _ {F : Type 0} ⦃o : FloatOps F⦄ where
  unfoldable pub init : WaypointPlan F → F → Provider F
  unfolding initial_progress
  init plan period = record {
    active_mode = mode_inactive;
    safety_state = state_unknown;
    safety_seen = false;
    plan = plan;
    progress = initial_progress;
    period = period;
  }

  unfoldable pub on_mode : ℕ → Provider F → Provider F
  on_mode mode s = record s { active_mode = mode }

  unfoldable pub on_safety : ℕ → Provider F → Provider F
  on_safety state s = record s { safety_state = state; safety_seen = true }

  abbrev pub command_message : Params → Time → Waypoint F → TwistStamped F
  command_message p now w = record {
    header = record { stamp = now; frame_id = p.robot_id };
    twist = record {
      linear = record zero_vector { x = w.linear_x_mps };
      angular = record zero_vector { z = w.angular_z_radps };
    };
  }

  abbrev pub emitted : Params → Time → Option (Waypoint F) → Option (TwistStamped F)
  emitted p now none = none
  emitted p now (some w) = some (command_message p now w)

  unfoldable pub after_advance : Params → Time → Provider F → Outcome F → Tick F
  after_advance p now s value_error = raised
  after_advance p now s out_of_fuel = hung
  after_advance p now s (advanced progress) =
      returned (record s { progress = progress }) (emitted p now (current_command progress s.plan))

  unfoldable pub tick : ℕ → Params → Time → Provider F → Tick F
  unfolding should_emit_candidate after_advance
  tick fuel p now s =
      let gate = should_emit_candidate p.enabled s.active_mode s.safety_state s.safety_seen in
      if not (gate.0)
      then returned s none
      else after_advance p now s (advance_progress fuel s.progress s.plan s.period)
