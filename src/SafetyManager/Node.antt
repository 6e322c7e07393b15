-- ===== src/SafetyManager/Node.antt =====
-- safety_manager_node.py, lines 130 to 322: the node's state, its callbacks and its publications.
-- Parameters are read in each callback, so each callback takes their values; a clock reading is an
-- argument too.
use Prim.Native.String.{◌++◌}
use huma_ware.Common
use huma_ware.Common.{
  ℕ, String, Bool, true, false, ◌||◌, Option, none, some, List, [], ◌∷◌, str_eq, or_default,
  is_nonempty, if◌then◌else◌,
}
use huma_ware.Common.Int.{pos}
use huma_ware.Ros.Time.{Time, Duration}
use huma_ware.Msgs.ModeState.{mode_inactive}
use huma_ware.Msgs.SafetyState
use huma_ware.Msgs.SafetyState.{SafetyState}
use huma_ware.Msgs.MrmState
use huma_ware.Msgs.MrmState.{MrmState}
use huma_ware.SafetyManager.Watchdog.{WatchdogInput, WatchdogResult, evaluate_watchdogs}
use huma_ware.SafetyManager.Reason.{select_mrm_reason}

pub record Params : Type 0 where
  pub robot_id : String
  pub estop_engaged : Bool
  pub mrm_active : Bool
  pub mrm_reason : String
  pub require_teleop_heartbeat : Bool
  pub teleop_heartbeat_timeout : Duration
  pub teleop_heartbeat_timeout_triggers_mrm : Bool
  pub require_hardware_heartbeat : Bool
  pub hardware_heartbeat_timeout : Duration
  pub hardware_heartbeat_timeout_triggers_mrm : Bool
  pub monitor_approved_commands : Bool
  pub approved_command_timeout : Duration
  pub approved_command_timeout_triggers_mrm : Bool

-- The values that `__init__` declares.
abbrev pub default_params : Params
default_params = record {
  robot_id = "mock_001";
  estop_engaged = false;
  mrm_active = false;
  mrm_reason = "";
  require_teleop_heartbeat = true;
  teleop_heartbeat_timeout = pos 1_000_000_000;
  teleop_heartbeat_timeout_triggers_mrm = false;
  require_hardware_heartbeat = false;
  hardware_heartbeat_timeout = pos 1_000_000_000;
  hardware_heartbeat_timeout_triggers_mrm = true;
  monitor_approved_commands = true;
  approved_command_timeout = pos 1_000_000_000;
  approved_command_timeout_triggers_mrm = false;
}

pub record SafetyManager : Type 0 where
  pub active_mode : ℕ
  pub teleop_heartbeat_at : Option Time
  pub hardware_heartbeat_at : Option Time
  pub approved_command_at : Option Time
  pub service_mrm_active : Bool
  pub service_mrm_reason : String
  pub current_safety_state : ℕ

abbrev pub init : SafetyManager
init = record {
  active_mode = mode_inactive;
  teleop_heartbeat_at = none;
  hardware_heartbeat_at = none;
  approved_command_at = none;
  service_mrm_active = false;
  service_mrm_reason = "";
  current_safety_state = SafetyState.state_unknown;
}

unfoldable pub on_teleop_heartbeat : Time → SafetyManager → SafetyManager
on_teleop_heartbeat now s = record s { teleop_heartbeat_at = some now }

unfoldable pub on_hardware_heartbeat : Time → SafetyManager → SafetyManager
on_hardware_heartbeat now s = record s { hardware_heartbeat_at = some now }

unfoldable pub on_approved_command : Time → SafetyManager → SafetyManager
on_approved_command now s = record s { approved_command_at = some now }

unfoldable pub on_mode_state : ℕ → SafetyManager → SafetyManager
on_mode_state mode s = record s { active_mode = mode }

abbrev pub watchdog_input : Params → Time → SafetyManager → WatchdogInput
watchdog_input p now s = record {
  now = now;
  active_mode = s.active_mode;
  teleop_last_seen = s.teleop_heartbeat_at;
  hardware_last_seen = s.hardware_heartbeat_at;
  approved_last_seen = s.approved_command_at;
  require_teleop_heartbeat = p.require_teleop_heartbeat;
  teleop_policy = record {
    name = "teleop_heartbeat";
    timeout = p.teleop_heartbeat_timeout;
    trigger_mrm = p.teleop_heartbeat_timeout_triggers_mrm;
  };
  require_hardware_heartbeat = p.require_hardware_heartbeat;
  hardware_policy = record {
    name = "hardware_heartbeat";
    timeout = p.hardware_heartbeat_timeout;
    trigger_mrm = p.hardware_heartbeat_timeout_triggers_mrm;
  };
  monitor_approved_commands = p.monitor_approved_commands;
  approved_command_timeout = p.approved_command_timeout;
  approved_command_timeout_triggers_mrm = p.approved_command_timeout_triggers_mrm;
}

-- The fields that the `if`/`elif` chain of `_publish_state` sets.
pub record Verdict : Type 0 where
  pub state : ℕ
  pub active_faults : List String
  pub active_warnings : List String

unfoldable pub safety_verdict : Bool → Bool → List String → String → Verdict
safety_verdict estop_engaged mrm_active warnings mrm_reason =
    if estop_engaged
    then record {
      state = SafetyState.state_estop;
      active_faults = "estop_engaged" ∷ [];
      active_warnings = [];
    }
    else if mrm_active
    then record {
      state = SafetyState.state_mrm;
      active_faults = [];
      active_warnings =
          let listed = "minimal_risk_maneuver_active" ∷ warnings in
          if str_eq mrm_reason "" then listed else Common.append listed mrm_reason;
    }
    else if is_nonempty warnings
    then record { state = SafetyState.state_warn; active_faults = []; active_warnings = warnings }
    else record { state = SafetyState.state_ok; active_faults = []; active_warnings = [] }

unfoldable pub mrm_code : Bool → Bool → ℕ
mrm_code estop_engaged mrm_active =
    if estop_engaged
    then MrmState.state_fault
    else if mrm_active
    then MrmState.state_stop
    else MrmState.state_none

abbrev pub mrm_demanded : Params → WatchdogResult → SafetyManager → Bool
mrm_demanded p w s = p.mrm_active || (s.service_mrm_active || is_nonempty w.mrm_reasons)

unfoldable pub publish_state :
    Params → Time → SafetyManager → SafetyManager × SafetyState × MrmState
unfolding safety_verdict mrm_code
publish_state p now s =
    let w = evaluate_watchdogs (watchdog_input p now s) in
    let mrm_reason =
      select_mrm_reason p.mrm_active p.mrm_reason s.service_mrm_active s.service_mrm_reason
        w.mrm_reasons in
    let mrm_active = mrm_demanded p w s in
    let verdict = safety_verdict p.estop_engaged mrm_active w.warnings mrm_reason in
    (
      record s { current_safety_state = verdict.state },
      record {
        header = record { stamp = now; frame_id = p.robot_id };
        robot_id = p.robot_id;
        state = verdict.state;
        estop_engaged = p.estop_engaged;
        mrm_active = mrm_active;
        last_heartbeat = now;
        active_faults = verdict.active_faults;
        active_warnings = verdict.active_warnings;
      },
      record {
        header = record { stamp = now; frame_id = p.robot_id };
        robot_id = p.robot_id;
        state = mrm_code p.estop_engaged mrm_active;
        reason = mrm_reason;
        timeout = pos 0;
        operator_intervention_requested = mrm_active || p.estop_engaged;
      },
    )

pub record Request : Type 0 where
  pub requester : String
  pub reason : String

pub record Response : Type 0 where
  pub accepted : Bool
  pub active_safety_state : ℕ
  pub message : String

abbrev pub Published : Type 0
Published = Option (SafetyState × MrmState)

unfoldable pub handle_trigger_mrm :
    Params → Time → Request → SafetyManager → SafetyManager × Response × Published
handle_trigger_mrm p now r s =
    let reason = or_default r.reason "manual_mrm_trigger" in
    let (s', safety, mrm) =
      publish_state p now (record s { service_mrm_active = true; service_mrm_reason = reason }) in
    (
      s',
      record {
        accepted = true;
        active_safety_state = s'.current_safety_state;
        message =
            "MRM triggered by "
            ++ (or_default r.requester "anonymous" ++ (": " ++ s'.service_mrm_reason));
      },
      some (safety, mrm),
    )

unfoldable pub handle_clear_mrm :
    Params → Time → Request → SafetyManager → SafetyManager × Response × Published
handle_clear_mrm p now r s =
    let (s', safety, mrm) =
      publish_state p now (record s { service_mrm_active = false; service_mrm_reason = "" }) in
    if p.estop_engaged
    then (
      s,
      record {
        accepted = false;
        active_safety_state = SafetyState.state_estop;
        message = "cannot clear MRM while E-stop is engaged";
      },
      none,
    )
    else (
      s',
      record {
        accepted = true;
        active_safety_state = s'.current_safety_state;
        message =
            "MRM cleared by "
            ++ (or_default r.requester "anonymous"
                ++ (": " ++ or_default r.reason "manual_mrm_clear"));
      },
      some (safety, mrm),
    )
