-- ===== src/CapabilityRegistry/Node.antt =====
-- capability_registry_node.py, lines 101 to 255: the state of a capability, the node's state, its
-- callbacks, its service and what it publishes.
use huma_ware.Common.{
  ℕ, ◌*◌, ◌/◌, ◌%◌, String, Bool, ◌&&◌, not, Option, none, some, List, [], ◌∷◌, map, ◌==◌, elem,
  elem_str, str_eq, is_nonempty, if◌then◌else◌,
}
use huma_ware.Common.Int.{pos}
use huma_ware.Common.Dict.{Dict, get, put, text_key}
use huma_ware.Ros.Time.{Time, DurationMsg}
use huma_ware.Ros.Twist.{Header}
use huma_ware.Msgs.Capability
use huma_ware.Msgs.Capability.{Capability}
use huma_ware.Msgs.ModeState.{
  mode_unknown, mode_shutdown, mode_teleop, mode_autonomy, mode_ai_policy, mode_maintenance,
  mode_inactive,
}
use huma_ware.Msgs.SafetyState
use huma_ware.Msgs.LocomotionState
use huma_ware.CapabilityRegistry.Specs.{CapabilitySpec, default_capabilities}

abbrev pub active_motion_modes : List ℕ
active_motion_modes = mode_teleop ∷ mode_autonomy ∷ mode_ai_policy ∷ []

abbrev pub recover_modes : List ℕ
recover_modes = mode_maintenance ∷ mode_inactive ∷ mode_teleop ∷ []

abbrev pub executing_locomotion_states : List ℕ
executing_locomotion_states = LocomotionState.state_walking ∷ LocomotionState.state_turning ∷ []

abbrev pub intervention_states : List ℕ
intervention_states = SafetyState.state_fault ∷ SafetyState.state_estop ∷ SafetyState.state_mrm ∷ []

abbrev pub is_motion : String → Bool
is_motion name = elem_str name ("walk_velocity" ∷ "turn_in_place" ∷ [])

-- The tests from the one on an unknown safety state on.
unfoldable pub state_by_mode : String → ℕ → ℕ → ℕ → ℕ
state_by_mode name mode safety locomotion =
    if safety == SafetyState.state_unknown
    then Capability.state_unavailable
    else if is_motion name && not (elem mode active_motion_modes)
    then Capability.state_unavailable
    else if str_eq name "recover_posture" && not (elem mode recover_modes)
    then Capability.state_unavailable
    else if str_eq name "stand" && (mode == mode_maintenance)
    then Capability.state_unavailable
    else if is_motion name && elem locomotion executing_locomotion_states
    then Capability.state_executing
    else if safety == SafetyState.state_ok
    then Capability.state_idle
    else Capability.state_degraded

unfoldable pub capability_state : CapabilitySpec → ℕ → ℕ → ℕ → ℕ
unfolding state_by_mode
capability_state spec mode safety locomotion =
    if mode == mode_shutdown
    then Capability.state_unavailable
    else if str_eq spec.name "stop"
    then Capability.state_idle
    else if str_eq spec.name "request_teleop"
    then if elem safety intervention_states
      then Capability.state_degraded
      else Capability.state_idle
    else if elem safety (SafetyState.state_fault ∷ SafetyState.state_estop ∷ [])
    then Capability.state_fault
    else if safety == SafetyState.state_mrm
    then if str_eq spec.name "recover_posture" && elem mode recover_modes
      then Capability.state_degraded
      else Capability.state_unavailable
    else state_by_mode spec.name mode safety locomotion

unfoldable pub duration_msg : ℕ → DurationMsg
duration_msg ms = record { sec = pos (ms / 1_000); nanosec = ms % 1_000 * 1_000_000 }

unfoldable pub build_capability : ℕ → ℕ → ℕ → CapabilitySpec → Capability
unfolding capability_state duration_msg
build_capability mode safety locomotion spec = record {
  name = spec.name;
  state = capability_state spec mode safety locomotion;
  required_mode = spec.required_mode;
  owner_node = spec.owner_node;
  required_hardware = spec.required_hardware;
  input_type = spec.input_type;
  output_type = spec.output_type;
  timeout = duration_msg spec.timeout_ms;
  safety_constraints = spec.safety_constraints;
  recovery_behavior = spec.recovery_behavior;
}

pub record CapabilityRegistry : Type 0 where
  pub mode : ℕ
  pub safety : ℕ
  pub locomotion : ℕ

abbrev pub init : CapabilityRegistry
init = record {
  mode = mode_unknown;
  safety = SafetyState.state_unknown;
  locomotion = LocomotionState.state_unknown;
}

unfoldable pub on_mode_state : ℕ → CapabilityRegistry → CapabilityRegistry
on_mode_state mode r = record r { mode = mode }

unfoldable pub on_safety_state : ℕ → CapabilityRegistry → CapabilityRegistry
on_safety_state state r = record r { safety = state }

unfoldable pub on_locomotion_state : ℕ → CapabilityRegistry → CapabilityRegistry
on_locomotion_state state r = record r { locomotion = state }

unfoldable pub capabilities : CapabilityRegistry → List Capability
unfolding build_capability
capabilities r = map (build_capability r.mode r.safety r.locomotion) default_capabilities

-- humaware_msgs/CapabilityRegistry
pub record RegistryMessage : Type 0 where
  pub header : Header
  pub robot_id : String
  pub capabilities : List Capability

unfoldable pub publish : String → Time → CapabilityRegistry → RegistryMessage
unfolding capabilities
publish robot_id now r = record {
  header = record { stamp = now; frame_id = robot_id };
  robot_id = robot_id;
  capabilities = capabilities r;
}

-- `{capability.name: capability for capability in capabilities}`
unfoldable pub by_name : Dict String Capability → List Capability → Dict String Capability
by_name d [] = d
by_name d (c ∷ cs) = by_name (put c.name c d) cs

abbrev pub cons_found : Option Capability → List Capability → List Capability
cons_found none cs = cs
cons_found (some c) cs = c ∷ cs

abbrev pub cons_missing : String → Option Capability → List String → List String
cons_missing name none names = name ∷ names
cons_missing name (some c) names = names

unfoldable pub found : Dict String Capability → List String → List Capability
found d [] = []
found d (name ∷ names) = cons_found (get name d) (found d names)

unfoldable pub missing : Dict String Capability → List String → List String
missing d [] = []
missing d (name ∷ names) = cons_missing name (get name d) (missing d names)

pub record ListResponse : Type 0 where
  pub capabilities : List Capability
  pub missing_names : List String

unfoldable pub on_list_capabilities : List String → CapabilityRegistry → ListResponse
unfolding capabilities by_name found missing
on_list_capabilities names r =
    if is_nonempty names
    then record {
      capabilities = found (by_name [] (capabilities r)) names;
      missing_names = missing (by_name [] (capabilities r)) names;
    }
    else record { capabilities = capabilities r; missing_names = [] }
