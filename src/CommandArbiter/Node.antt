-- ===== src/CommandArbiter/Node.antt =====
-- command_arbiter_node.py, lines 129 to 307: the node's state, its callbacks and its publications.
use huma_ware.Common.{ℕ, String, Bool, true, false, Option, none, some, [], is_some, if◌then◌else◌}
use huma_ware.Common.Int.{pos, floor_div, floor_mod}
use huma_ware.Common.Dict.{Dict, code_eq, put}
use huma_ware.Ros.Float.{FloatOps}
use huma_ware.Ros.Time.{Time, Duration, DurationMsg, since, billion}
use huma_ware.Ros.Twist.{TwistStamped, zero_twist}
use huma_ware.Msgs.ModeState.{mode_inactive, mode_teleop, mode_autonomy, mode_ai_policy}
use huma_ware.Msgs.SafetyState
use huma_ware.Msgs.SafetyState.{SafetyState}
use huma_ware.Msgs.CommandArbitrationState.{
  CommandArbitrationState, source_none, source_safety, source_teleop, source_autonomy,
  source_ai_policy,
}
use huma_ware.CommandArbiter.Select.{
  CandidateCommand, select_candidate, should_publish_stop, clamp_velocity,
}

pub record Params (F : Type 0) : Type 0 where
  pub robot_id : String
  pub command_timeout : Duration
  pub max_linear_velocity_mps : F
  pub max_angular_velocity_radps : F
  pub publish_stop_on_block : Bool

pub record CommandArbiter (F : Type 0) : Type 0 where
  pub active_mode : ℕ
  pub safety_state : ℕ
  pub last_safety : Option SafetyState
  pub candidates : Dict ℕ (CandidateCommand F)

unfoldable pub duration_msg : Duration → DurationMsg
unfolding floor_div floor_mod
duration_msg d = record { sec = floor_div d billion; nanosec = floor_mod d billion }

-- The two fields that `_publish_state` leaves at zero without a last command.
abbrev pub last_command_time : Option Time → Time
last_command_time none = 0
last_command_time (some t) = t

abbrev pub command_age : Time → Option Time → DurationMsg
command_age now none = record { sec = pos 0; nanosec = 0 }
command_age now (some t) = duration_msg (since now t)

module _ {F : Type 0} where
  abbrev pub init : CommandArbiter F
  init = record {
    active_mode = mode_inactive;
    safety_state = SafetyState.state_unknown;
    last_safety = none;
    candidates = [];
  }

  unfoldable pub on_mode_state : ℕ → CommandArbiter F → CommandArbiter F
  on_mode_state mode a = record a { active_mode = mode }

  unfoldable pub on_safety_state : SafetyState → CommandArbiter F → CommandArbiter F
  on_safety_state msg a = record a { last_safety = some msg; safety_state = msg.state }

  unfoldable pub on_candidate :
      ℕ → String → ℕ → TwistStamped F → Time → CommandArbiter F → CommandArbiter F
  on_candidate source name required_mode msg now a = record a {
    candidates =
        put source
          (record {
            source = source;
            name = name;
            required_mode = required_mode;
            msg = msg;
            received_at = now;
          })
          a.candidates;
  }

  -- The callbacks of the three command subscriptions.
  unfoldable pub on_teleop : TwistStamped F → Time → CommandArbiter F → CommandArbiter F
  unfolding on_candidate
  on_teleop = on_candidate source_teleop "teleop" mode_teleop

  unfoldable pub on_autonomy : TwistStamped F → Time → CommandArbiter F → CommandArbiter F
  unfolding on_candidate
  on_autonomy = on_candidate source_autonomy "autonomy" mode_autonomy

  unfoldable pub on_policy : TwistStamped F → Time → CommandArbiter F → CommandArbiter F
  unfolding on_candidate
  on_policy = on_candidate source_ai_policy "ai_policy" mode_ai_policy

  unfoldable pub arbitration_state :
      Params F
      → CommandArbiter F
      → Time
      → ℕ
      → String
      → Bool
      → Bool
      → String
      → Option Time
      → CommandArbitrationState
  arbitration_state p a now active_source active_source_name output_enabled stop_command_published
        reason last_time =
      record {
        header = record { stamp = now; frame_id = p.robot_id };
        robot_id = p.robot_id;
        active_source = active_source;
        active_source_name = active_source_name;
        active_mode = a.active_mode;
        safety_state = a.safety_state;
        output_enabled = output_enabled;
        stop_command_published = stop_command_published;
        last_command_time = last_command_time last_time;
        command_age = command_age now last_time;
        reason = reason;
      }

module _ {F : Type 0} ⦃o : FloatOps F⦄ where
  unfoldable pub make_stop : Params F → Time → TwistStamped F
  make_stop p now = record {
    header = record { stamp = now; frame_id = p.robot_id };
    twist = zero_twist;
  }

  unfoldable pub limit_command : Params F → TwistStamped F → Time → TwistStamped F
  unfolding clamp_velocity
  limit_command p msg now =
      clamp_velocity msg p.max_linear_velocity_mps p.max_angular_velocity_radps now
        msg.header.frame_id

  -- The body of `_tick` after the selection.
  unfoldable pub emit :
      Params F
      → Time
      → CommandArbiter F
      → Option (CandidateCommand F)
      → String
      → Option (TwistStamped F) × CommandArbitrationState
  unfolding make_stop limit_command arbitration_state should_publish_stop
  emit p now a none reason =
      if should_publish_stop reason p.publish_stop_on_block
      then (
        some (make_stop p now),
        arbitration_state p a now source_safety "safety" false true reason none,
      )
      else (none, arbitration_state p a now source_none "none" false false reason none)
  emit p now a (some candidate) reason = (
    some (limit_command p candidate.msg now),
    arbitration_state p a now candidate.source candidate.name true false "approved"
        (some candidate.received_at),
  )

  abbrev pub selection : Params F → Time → CommandArbiter F → Option (CandidateCommand F) × String
  selection p now a =
      select_candidate a.active_mode (is_some a.last_safety) a.safety_state a.candidates now
        p.command_timeout

  -- `_tick` leaves the state alone: it publishes at most one command, and always the state.
  unfoldable pub tick :
      Params F → Time → CommandArbiter F → Option (TwistStamped F) × CommandArbitrationState
  unfolding emit
  tick p now a = let (candidate, reason) = selection p now a in emit p now a candidate reason
