-- ===== src/HardwareAdapter/Node.antt =====
-- template_adapter_node.py, lines 105 to 250: the node's state, its callbacks and its tick. What the
-- vendor's code does with a command, or to stop, is the template's stub: here the order that it gets.
use Prim.Native.String.{◌++◌}
use mathlib.Core.List
use huma_ware.Common.{ℕ, String, Bool, true, false, Option, none, some, [], ◌∷◌, if◌then◌else◌}
use huma_ware.Common.Text.{str}
use huma_ware.Ros.Diagnostics.{DiagnosticArray, level_ok, level_warn}
use huma_ware.Ros.Time.{Time, Duration}
use huma_ware.Ros.Twist.{Header, TwistStamped}
use huma_ware.Msgs.ModeState.{mode_inactive}
use huma_ware.Msgs.SafetyState
use huma_ware.Msgs.MrmState
use huma_ware.Msgs.CommandArbitrationState.{CommandArbitrationState}
use huma_ware.HardwareAdapter.Gate.{
  AdapterIdentity, as_key_values, GateInput, should_release_output,
}

pub record Params : Type 0 where
  pub robot_id : String
  pub identity : AdapterIdentity
  pub approved_command_timeout : Duration
  pub arbitration_state_timeout : Duration

pub record HardwareAdapter (F : Type 0) : Type 0 where
  pub safety_state : ℕ
  pub mrm_state : ℕ
  pub active_mode : ℕ
  pub last_approved : Option (TwistStamped F)
  pub last_approved_at : Option Time
  pub last_arbitration : Option CommandArbitrationState
  pub last_arbitration_at : Option Time

-- `_apply_to_hardware(command, reason)` or `_stop_hardware(reason)`.
pub data Order (F : Type 0) : Type 0 where
  apply_to_hardware : TwistStamped F → String → Order F
  stop_hardware : String → Order F

-- `str(allow).lower()`
abbrev pub bool_text : Bool → String
bool_text true = "true"
bool_text false = "false"

abbrev pub output_enabled : Option CommandArbitrationState → Bool
output_enabled none = false
output_enabled (some m) = m.output_enabled

unfoldable pub heartbeat : Params → Time → Header
heartbeat p now = record { stamp = now; frame_id = p.robot_id }

module _ {F : Type 0} where
  abbrev pub init : HardwareAdapter F
  init = record {
    safety_state = SafetyState.state_unknown;
    mrm_state = MrmState.state_none;
    active_mode = mode_inactive;
    last_approved = none;
    last_approved_at = none;
    last_arbitration = none;
    last_arbitration_at = none;
  }

  unfoldable pub on_safety_state : ℕ → HardwareAdapter F → HardwareAdapter F
  on_safety_state state h = record h { safety_state = state }

  unfoldable pub on_mrm_state : ℕ → HardwareAdapter F → HardwareAdapter F
  on_mrm_state state h = record h { mrm_state = state }

  unfoldable pub on_mode_state : ℕ → HardwareAdapter F → HardwareAdapter F
  on_mode_state mode h = record h { active_mode = mode }

  unfoldable pub on_approved_command : TwistStamped F → Time → HardwareAdapter F → HardwareAdapter F
  on_approved_command msg now h = record h { last_approved = some msg; last_approved_at = some now }

  unfoldable pub on_arbitration_state :
      CommandArbitrationState → Time → HardwareAdapter F → HardwareAdapter F
  on_arbitration_state msg now h = record h {
    last_arbitration = some msg;
    last_arbitration_at = some now;
  }

  abbrev pub gate_input : Params → Time → HardwareAdapter F → GateInput
  gate_input p now h = record {
    safety_state = h.safety_state;
    mrm_state = h.mrm_state;
    active_mode = h.active_mode;
    last_approved_at = h.last_approved_at;
    last_arbitration_at = h.last_arbitration_at;
    arbitration_output_enabled = output_enabled h.last_arbitration;
    now = now;
    approved_command_timeout = p.approved_command_timeout;
    arbitration_state_timeout = p.arbitration_state_timeout;
  }

  unfoldable pub diagnostics : Params → Bool → String → Time → HardwareAdapter F → DiagnosticArray
  unfolding as_key_values
  diagnostics p allow reason now h = record {
    stamp = now;
    status =
        record {
          name = p.robot_id ++ "/hardware_adapter_template";
          hardware_id = p.identity.robot_model;
          level = if allow then level_ok else level_warn;
          message = reason;
          values = List.◌++◌ (as_key_values p.identity) (
              record { key = "output_allowed"; value = bool_text allow }
              ∷ record { key = "active_mode"; value = str h.active_mode }
              ∷ record { key = "safety_state"; value = str h.safety_state }
              ∷ record { key = "mrm_state"; value = str h.mrm_state }
              ∷ []);
        }
        ∷ [];
  }

  -- `if not allow or self._last_approved is None`
  unfoldable pub release : Bool → String → Option (TwistStamped F) → Order F
  release false reason last = stop_hardware reason
  release true reason none = stop_hardware reason
  release true reason (some msg) = apply_to_hardware msg reason

  unfoldable pub tick : Params → Time → HardwareAdapter F → DiagnosticArray × Order F
  unfolding diagnostics release
  tick p now h =
      let (allow, reason) = should_release_output (gate_input p now h) in
      (diagnostics p allow reason now h, release allow reason h.last_approved)
