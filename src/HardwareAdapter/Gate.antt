-- ===== src/HardwareAdapter/Gate.antt =====
-- template_adapter_node.py, lines 36 to 102: the identity of an adapter and its output gate.
use huma_ware.Common.{
  ℕ, String, Bool, true, false, not, Option, none, some, List, [], ◌∷◌, ◌==◌, elem, if◌then◌else◌,
}
use huma_ware.Ros.Diagnostics.{KeyValue}
use huma_ware.Ros.Time.{Time, Duration, older_than}
use huma_ware.Msgs.ModeState.{mode_teleop, mode_autonomy, mode_ai_policy}
use huma_ware.Msgs.SafetyState.{state_ok, state_warn, state_fault, state_estop, state_mrm}
use huma_ware.Msgs.MrmState.{state_none}

abbrev pub gate_open_reason : String
gate_open_reason = "approved_command"

pub record AdapterIdentity : Type 0 where
  pub robot_model : String
  pub firmware_version : String
  pub sdk_version : String
  pub git_sha : String
  pub launch_profile : String

unfoldable pub as_key_values : AdapterIdentity → List KeyValue
as_key_values i =
    record { key = "robot_model"; value = i.robot_model }
    ∷ record { key = "firmware_version"; value = i.firmware_version }
    ∷ record { key = "sdk_version"; value = i.sdk_version }
    ∷ record { key = "git_sha"; value = i.git_sha }
    ∷ record { key = "launch_profile"; value = i.launch_profile }
    ∷ []

-- The arguments of `should_release_output`.
pub record GateInput : Type 0 where
  pub safety_state : ℕ
  pub mrm_state : ℕ
  pub active_mode : ℕ
  pub last_approved_at : Option Time
  pub last_arbitration_at : Option Time
  pub arbitration_output_enabled : Bool
  pub now : Time
  pub approved_command_timeout : Duration
  pub arbitration_state_timeout : Duration

-- The tests on the approved command, which come last.
unfoldable pub approved_gate : GateInput → Option Time → Bool × String
approved_gate g none = (false, "waiting_for_approved_command")
approved_gate g (some last_approved_at) =
    if older_than g.now last_approved_at g.approved_command_timeout
    then (false, "approved_command_stale")
    else (true, gate_open_reason)

-- The tests on the arbitration state, before them.
unfoldable pub arbitration_gate : GateInput → Option Time → Bool × String
unfolding approved_gate
arbitration_gate g none = (false, "waiting_for_arbitration_state")
arbitration_gate g (some last_arbitration_at) =
    if older_than g.now last_arbitration_at g.arbitration_state_timeout
    then (false, "arbitration_state_stale")
    else if not g.arbitration_output_enabled
    then (false, "arbiter_disabled_output")
    else approved_gate g g.last_approved_at

unfoldable pub should_release_output : GateInput → Bool × String
unfolding arbitration_gate
should_release_output g =
    if elem g.safety_state (state_fault ∷ state_estop ∷ state_mrm ∷ [])
    then (false, "safety_state_blocks_output")
    else if not (elem g.safety_state (state_ok ∷ state_warn ∷ []))
    then (false, "safety_state_not_ready")
    else if not (g.mrm_state == state_none)
    then (false, "mrm_state_blocks_output")
    else if not (elem g.active_mode (mode_teleop ∷ mode_autonomy ∷ mode_ai_policy ∷ []))
    then (false, "active_mode_blocks_output")
    else arbitration_gate g g.last_arbitration_at
