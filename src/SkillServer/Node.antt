-- ===== src/SkillServer/Node.antt =====
-- skill_server_node.py, lines 34 to 170: the node's state, its callbacks and its service.
use huma_ware.Common.{
  ℕ, String, Bool, true, false, ◌&&◌, not, Option, none, some, List, [], ◌∷◌, elem_str, str_eq,
  if◌then◌else◌,
}
use huma_ware.Common.Int.{pos}
use huma_ware.Common.Dict.{Dict, get, put, text_key}
use huma_ware.Ros.Float.{FloatOps}
use huma_ware.Ros.Time.{Time, DurationMsg}
use huma_ware.Ros.Twist.{TwistStamped}
use huma_ware.Msgs.Capability.{Capability}
use huma_ware.Msgs.ModeState.{mode_unknown}
use huma_ware.Msgs.SafetyState.{state_unknown}
use huma_ware.Msgs.SkillExecutionState.{SkillExecutionState, status_unknown}
use huma_ware.SkillServer.Requests.{
  executable_skills, evaluate_request, make_stop_command, sanitize_velocity_command,
}

pub record SkillServer : Type 0 where
  pub capabilities : Dict String Capability
  pub mode : ℕ
  pub safety : ℕ
  pub last_state : Option SkillExecutionState

-- humaware_msgs/srv/ExecuteSkill
pub record ExecuteSkillRequest (F : Type 0) : Type 0 where
  pub capability_name : String
  pub requester : String
  pub dry_run : Bool
  pub velocity_command : TwistStamped F

pub record ExecuteSkillResponse : Type 0 where
  pub accepted : Bool
  pub message : String
  pub execution_id : String
  pub status : ℕ

-- The clock readings of one service call, and the identifier that `uuid4` gives.
pub record Call : Type 0 where
  pub execution_id : String
  pub commanded_at : Time
  pub published_at : Time

unfoldable pub by_name : Dict String Capability → List Capability → Dict String Capability
by_name d [] = d
by_name d (c ∷ cs) = by_name (put c.name c d) cs

unfoldable pub on_capabilities : List Capability → SkillServer → SkillServer
unfolding by_name
on_capabilities capabilities s = record s { capabilities = by_name [] capabilities }

unfoldable pub on_mode_state : ℕ → SkillServer → SkillServer
on_mode_state mode s = record s { mode = mode }

unfoldable pub on_safety_state : ℕ → SkillServer → SkillServer
on_safety_state state s = record s { safety = state }

abbrev pub timeout_of : Option Capability → DurationMsg
timeout_of none = record { sec = pos 0; nanosec = 0 }
timeout_of (some c) = c.timeout

-- The message of `_publish_state`, which the node keeps too.
abbrev pub state_message :
    String → Call → Option Capability → String → String → ℕ → String → Bool → SkillExecutionState
state_message robot_id call capability capability_name requester status message command_published =
    record {
      header = record { stamp = call.published_at; frame_id = robot_id };
      robot_id = robot_id;
      execution_id = call.execution_id;
      capability_name = capability_name;
      requester = requester;
      status = status;
      message = message;
      accepted_at = call.published_at;
      timeout = timeout_of capability;
      command_published = command_published;
    }

-- The node as its constructor leaves it, with the state that it publishes first.
unfoldable pub init : String → Time → SkillServer
init robot_id now = record {
  capabilities = [];
  mode = mode_unknown;
  safety = state_unknown;
  last_state = some (
      state_message robot_id (record { execution_id = ""; commanded_at = now; published_at = now })
        none "" "" status_unknown "waiting_for_skill_request" false);
}

abbrev pub restamped : Time → Option SkillExecutionState → Option SkillExecutionState
restamped now none = none
restamped now (some m) =
    some (record m { header = record { stamp = now; frame_id = m.header.frame_id } })

-- The message is published again, with the time of now.
unfoldable pub republish_state : Time → SkillServer → SkillServer × Option SkillExecutionState
republish_state now s =
    (record s { last_state = restamped now s.last_state }, restamped now s.last_state)

-- What a call of the service changes, publishes and answers.
pub record Executed (F : Type 0) : Type 0 where
  pub server : SkillServer
  pub command : Option (TwistStamped F)
  pub published : SkillExecutionState
  pub response : ExecuteSkillResponse

module _ {F : Type 0} ⦃o : FloatOps F⦄ where
  -- The command that `_execute_supported_skill` publishes.
  unfoldable pub execute_supported_skill :
      String → Time → ExecuteSkillRequest F → Option (TwistStamped F)
  unfolding make_stop_command sanitize_velocity_command
  execute_supported_skill robot_id now r =
      if str_eq r.capability_name "stop"
      then some (make_stop_command robot_id now)
      else if str_eq r.capability_name "walk_velocity"
      then some (sanitize_velocity_command r.velocity_command robot_id now false)
      else if str_eq r.capability_name "turn_in_place"
      then some (sanitize_velocity_command r.velocity_command robot_id now true)
      else none

  unfoldable pub on_execute_skill : String → Call → ExecuteSkillRequest F → SkillServer → Executed F
  unfolding execute_supported_skill evaluate_request
  on_execute_skill robot_id call r s =
      let capability = get r.capability_name s.capabilities in
      let decision = evaluate_request r.capability_name capability s.mode s.safety in
      let executes = decision.accepted && not r.dry_run in
      let command_published = executes && elem_str r.capability_name executable_skills in
      let state =
        state_message robot_id call capability r.capability_name r.requester decision.status
          decision.message command_published in
      record {
        server = record s { last_state = some state };
        command = if executes then execute_supported_skill robot_id call.commanded_at r else none;
        published = state;
        response = record {
          accepted = decision.accepted;
          message = decision.message;
          execution_id = call.execution_id;
          status = decision.status;
        };
      }
