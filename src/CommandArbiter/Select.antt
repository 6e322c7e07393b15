-- ===== src/CommandArbiter/Select.antt =====
-- command_arbiter_node.py, lines 17 to 126: the choice of a candidate, the stop rule, the limits.
use huma_ware.Common.{
  ℕ, String, Bool, false, not, Option, none, some, List, [], ◌∷◌, ◌==◌, elem, elem_str,
  if◌then◌else◌,
}
use huma_ware.Common.Dict.{Dict, code_eq, get}
use huma_ware.Ros.Float.{FloatOps, min_float, max_float}
use huma_ware.Ros.Time.{Time, Duration, is_within}
use huma_ware.Ros.Twist.{TwistStamped}
use huma_ware.Msgs.ModeState.{mode_inactive, mode_maintenance, mode_fault, mode_shutdown}
use huma_ware.Msgs.SafetyState.{state_ok, state_warn, state_fault, state_estop, state_mrm}
use huma_ware.Msgs.CommandArbitrationState.{source_teleop, source_autonomy, source_ai_policy}

abbrev pub source_priority : List ℕ
source_priority = source_teleop ∷ source_autonomy ∷ source_ai_policy ∷ []

abbrev pub blocking_safety_states : List ℕ
blocking_safety_states = state_fault ∷ state_estop ∷ state_mrm ∷ []

abbrev pub allowed_safety_states : List ℕ
allowed_safety_states = state_ok ∷ state_warn ∷ []

abbrev pub inactive_modes : List ℕ
inactive_modes = mode_inactive ∷ mode_maintenance ∷ mode_fault ∷ mode_shutdown ∷ []

abbrev pub stop_reasons : List String
stop_reasons =
    "safety_state_blocks_output" ∷ "safety_state_not_ready" ∷ "active_mode_blocks_output"
    ∷ "no_fresh_command_for_active_mode" ∷ []

pub record CandidateCommand (F : Type 0) : Type 0 where
  pub source : ℕ
  pub name : String
  pub required_mode : ℕ
  pub msg : TwistStamped F
  pub received_at : Time

module _ {F : Type 0} (active_mode : ℕ) (now : Time) (command_timeout : Duration) where
  -- The tests of one round of the loop, on the candidate that is stored for the source.
  unfoldable pub eligible : Option (CandidateCommand F) → Bool
  eligible none = false
  eligible (some candidate) =
      if not (candidate.required_mode == active_mode)
      then false
      else is_within now candidate.received_at command_timeout

  -- `for source in SOURCE_PRIORITY`
  unfoldable pub first_fresh : Dict ℕ (CandidateCommand F) → List ℕ → Option (CandidateCommand F)
  first_fresh candidates [] = none
  first_fresh candidates (source ∷ rest) =
      let next = first_fresh candidates rest in
      let candidate = get source candidates in if eligible candidate then candidate else next

module _ {F : Type 0} where
  abbrev pub or_no_fresh : Option (CandidateCommand F) → Option (CandidateCommand F) × String
  or_no_fresh none = (none, "no_fresh_command_for_active_mode")
  or_no_fresh (some candidate) = (some candidate, "approved")

  unfoldable pub select_candidate :
      ℕ
      → Bool
      → ℕ
      → Dict ℕ (CandidateCommand F)
      → Time
      → Duration
      → Option (CandidateCommand F) × String
  select_candidate active_mode safety_seen safety_state candidates now command_timeout =
      if not safety_seen
      then (none, "waiting_for_safety_state")
      else if elem safety_state blocking_safety_states
      then (none, "safety_state_blocks_output")
      else if not (elem safety_state allowed_safety_states)
      then (none, "safety_state_not_ready")
      else if elem active_mode inactive_modes
      then (none, "active_mode_blocks_output")
      else or_no_fresh (first_fresh active_mode now command_timeout candidates source_priority)

unfoldable pub should_publish_stop : String → Bool → Bool
should_publish_stop reason publish_stop_on_block =
    if not publish_stop_on_block then false else elem_str reason stop_reasons

module _ {F : Type 0} ⦃o : FloatOps F⦄ where
  unfoldable pub clamp : F → F → F → F
  clamp value minimum maximum = max_float minimum (min_float maximum value)

  unfoldable pub clamp_velocity : TwistStamped F → F → F → Time → String → TwistStamped F
  clamp_velocity msg max_linear max_angular stamp frame_id =
      let linear = msg.twist.linear in
      record {
        header = record { stamp = stamp; frame_id = frame_id };
        twist = record {
          linear = record {
            x = clamp linear.x (o.neg max_linear) max_linear;
            y = clamp linear.y (o.neg max_linear) max_linear;
            z = o.float_zero;
          };
          angular = record {
            x = o.float_zero;
            y = o.float_zero;
            z = clamp msg.twist.angular.z (o.neg max_angular) max_angular;
          };
        };
      }
