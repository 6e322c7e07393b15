-- ===== src/ModeManager/Node.antt =====
-- mode_manager_node.py, lines 45 to 225: the node's state, its services and its publications. A
-- service reads the clock up to three times; the readings are the fields of `Clock`.
use Prim.Native.String.{◌++◌}
use huma_ware.Common.{
  ℕ, String, Bool, true, false, not, Option, none, some, elem, or_default, if◌then◌else◌,
}
use huma_ware.Common.Int.{ℤ, pos, negsuc}
use huma_ware.Common.Dict.{text_key, get}
use huma_ware.Common.Text.{str, lower}
use huma_ware.Ros.Time.{Time}
use huma_ware.Msgs.ModeState.{ModeState, mode_inactive, mode_teleop}
use huma_ware.Msgs.ModeTransitionState.{ModeTransitionState, outcome_accepted, outcome_rejected}
use huma_ware.Msgs.SafetyState.{state_unknown}
use huma_ware.ModeManager.Transition.{mode_names, mode_values, evaluate_transition}

-- The `initial_mode` parameter: a text, or a number that `int` takes.
pub data InitialMode : Type 0 where
  text : String → InitialMode
  number : ℤ → InitialMode

abbrev pub or_inactive : Option ℕ → ℕ
or_inactive none = mode_inactive
or_inactive (some mode) = mode

unfoldable pub parse_initial_mode : InitialMode → ℕ
parse_initial_mode (text name) = or_inactive (get (lower name) mode_names)
parse_initial_mode (number (pos n)) = if elem n mode_values then n else mode_inactive
parse_initial_mode (number (negsuc n)) = mode_inactive

pub record ModeManager : Type 0 where
  pub requested_mode : ℕ
  pub active_mode : ℕ
  pub owner : String
  pub transition_reason : String
  pub active_since : Time
  pub safety_state : ℕ
  pub safety_seen : Bool

unfoldable pub init : InitialMode → Time → ModeManager
init initial now = record {
  requested_mode = parse_initial_mode initial;
  active_mode = parse_initial_mode initial;
  owner = "mode_manager";
  transition_reason = "initial_mode";
  active_since = now;
  safety_state = state_unknown;
  safety_seen = false;
}

pub record Clock : Type 0 where
  pub applied_at : Time
  pub reported_at : Time
  pub published_at : Time

unfoldable pub on_safety_state : ℕ → ModeManager → ModeManager
on_safety_state state m = record m { safety_state = state; safety_seen = true }

abbrev pub evaluate : ℕ → Bool → ModeManager → Bool × String
evaluate requested_mode takeover m =
    evaluate_transition m.active_mode requested_mode m.safety_seen m.safety_state takeover

unfoldable pub apply_mode : ℕ → String → String → Time → ModeManager → ModeManager
apply_mode requested_mode requester reason now m = record m {
  requested_mode = requested_mode;
  active_mode = requested_mode;
  owner = requester;
  transition_reason = reason;
  active_since = now;
}

-- `_publish_state`
unfoldable pub mode_message : String → Time → ModeManager → ModeState
mode_message robot_id now m = record {
  header = record { stamp = now; frame_id = robot_id };
  robot_id = robot_id;
  requested_mode = m.requested_mode;
  active_mode = m.active_mode;
  owner = m.owner;
  transition_reason = m.transition_reason;
  active_since = m.active_since;
}

-- `_publish_transition`
unfoldable pub transition_message :
    String → Time → ModeManager → ℕ → ℕ → String → String → ℕ → String → Bool → ModeTransitionState
transition_message robot_id now m previous_mode requested_mode requester reason outcome message
      takeover =
    record {
      header = record { stamp = now; frame_id = robot_id };
      robot_id = robot_id;
      previous_mode = previous_mode;
      requested_mode = requested_mode;
      active_mode = m.active_mode;
      requester = requester;
      reason = reason;
      outcome = outcome;
      message = message;
      takeover = takeover;
    }

pub record SetModeRequest : Type 0 where
  pub requested_mode : ℕ
  pub requester : String
  pub reason : String

pub record SetModeResponse : Type 0 where
  pub accepted : Bool
  pub active_mode : ℕ
  pub message : String

-- A service's effects: the new state, its reply, and what it publishes on each topic.
pub record Effect (Response : Type 0) : Type 0 where
  pub state : ModeManager
  pub response : Response
  pub transition : ModeTransitionState
  pub published : Option ModeState

unfoldable pub handle_set_mode :
    String → Clock → SetModeRequest → ModeManager → Effect SetModeResponse
unfolding apply_mode mode_message transition_message
handle_set_mode robot_id clock r m =
    let requester = or_default r.requester "anonymous" in
    let reason = or_default r.reason "mode_set" in
    let unsupported = "unsupported mode: " ++ str r.requested_mode in
    let (accepted, message) = evaluate r.requested_mode false m in
    let refused = record m { requested_mode = r.requested_mode } in
    let applied = apply_mode r.requested_mode requester reason clock.applied_at m in
    if not (elem r.requested_mode mode_values)
    then record {
      state = m;
      response = record { accepted = false; active_mode = m.active_mode; message = unsupported };
      transition =
          transition_message robot_id clock.reported_at m m.active_mode r.requested_mode requester
            reason outcome_rejected unsupported false;
      published = none;
    }
    else if not accepted
    then record {
      state = refused;
      response = record { accepted = false; active_mode = m.active_mode; message = message };
      transition =
          transition_message robot_id clock.reported_at refused m.active_mode r.requested_mode
            requester reason outcome_rejected message false;
      published = none;
    }
    else record {
      state = applied;
      response = record { accepted = true; active_mode = applied.active_mode; message = message };
      transition =
          transition_message robot_id clock.reported_at applied m.active_mode r.requested_mode
            requester reason outcome_accepted message false;
      published = some (mode_message robot_id clock.published_at applied);
    }

pub record TakeoverRequest : Type 0 where
  pub requester : String
  pub reason : String

pub record TakeoverResponse : Type 0 where
  pub accepted : Bool
  pub previous_mode : ℕ
  pub active_mode : ℕ
  pub message : String

unfoldable pub handle_takeover :
    String → Clock → TakeoverRequest → ModeManager → Effect TakeoverResponse
unfolding apply_mode mode_message transition_message
handle_takeover robot_id clock r m =
    let requester = or_default r.requester "operator" in
    let reason = or_default r.reason "operator_takeover" in
    let (accepted, message) = evaluate mode_teleop true m in
    let m' = if accepted then apply_mode mode_teleop requester reason clock.applied_at m else m in
    record {
      state = m';
      response = record {
        accepted = accepted;
        previous_mode = m.active_mode;
        active_mode = m'.active_mode;
        message = message;
      };
      transition =
          transition_message robot_id clock.reported_at m' m.active_mode mode_teleop requester
            reason (if accepted then outcome_accepted else outcome_rejected) message true;
      published = some (mode_message robot_id clock.published_at m');
    }
