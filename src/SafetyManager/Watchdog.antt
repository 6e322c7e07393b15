-- ===== src/SafetyManager/Watchdog.antt =====
-- safety_manager_node.py, lines 18 to 106: heartbeat policies and the evaluation of the watchdogs.
use Prim.Native.String.{◌++◌}
use huma_ware.Common
use huma_ware.Common.{
  ℕ, String, Bool, true, false, ◌&&◌, Option, none, some, List, [], ◌∷◌, ◌==◌, elem, is_some,
  if◌then◌else◌,
}
use huma_ware.Ros.Time.{Time, Duration, older_than}
use huma_ware.Msgs.ModeState.{mode_teleop, mode_autonomy, mode_ai_policy}

abbrev pub heartbeat_modes : List ℕ
heartbeat_modes = mode_teleop ∷ mode_autonomy ∷ mode_ai_policy ∷ []

pub record HeartbeatPolicy : Type 0 where
  pub name : String
  pub timeout : Duration
  pub trigger_mrm : Bool

pub record WatchdogResult : Type 0 where
  pub warnings : List String
  pub mrm_reasons : List String

unfoldable pub check_heartbeat : Time → Option Time → HeartbeatPolicy → Option (String × Bool)
check_heartbeat now none policy = some (policy.name ++ "_missing", policy.trigger_mrm)
check_heartbeat now (some last_seen) policy =
    if older_than now last_seen policy.timeout
    then some (policy.name ++ "_timeout", policy.trigger_mrm)
    else none

-- `(result.mrm_reasons if triggers_mrm else result.warnings).append(reason)`
unfoldable pub append_finding : Option (String × Bool) → WatchdogResult → WatchdogResult
append_finding none result = result
append_finding (some (reason, triggers_mrm)) result =
    if triggers_mrm
    then record result { mrm_reasons = Common.append result.mrm_reasons reason }
    else record result { warnings = Common.append result.warnings reason }

-- The keyword arguments of `evaluate_watchdogs`.
pub record WatchdogInput : Type 0 where
  pub now : Time
  pub active_mode : ℕ
  pub teleop_last_seen : Option Time
  pub hardware_last_seen : Option Time
  pub approved_last_seen : Option Time
  pub require_teleop_heartbeat : Bool
  pub teleop_policy : HeartbeatPolicy
  pub require_hardware_heartbeat : Bool
  pub hardware_policy : HeartbeatPolicy
  pub monitor_approved_commands : Bool
  pub approved_command_timeout : Duration
  pub approved_command_timeout_triggers_mrm : Bool

-- `last_seen is not None and now - last_seen > timeout`
abbrev pub is_stale : Time → Option Time → Duration → Bool
is_stale now none timeout = false
is_stale now (some last_seen) timeout = older_than now last_seen timeout

unfoldable pub check_teleop : WatchdogInput → WatchdogResult → WatchdogResult
unfolding check_heartbeat append_finding
check_teleop w result =
    if w.active_mode == mode_teleop && w.require_teleop_heartbeat
    then append_finding (check_heartbeat w.now w.teleop_last_seen w.teleop_policy) result
    else result

unfoldable pub check_hardware : WatchdogInput → WatchdogResult → WatchdogResult
unfolding check_heartbeat append_finding
check_hardware w result =
    if elem w.active_mode heartbeat_modes && w.require_hardware_heartbeat
    then append_finding (check_heartbeat w.now w.hardware_last_seen w.hardware_policy) result
    else result

unfoldable pub check_approved : WatchdogInput → WatchdogResult → WatchdogResult
unfolding append_finding
check_approved w result =
    if w.monitor_approved_commands
      && (elem w.active_mode heartbeat_modes
          && is_stale w.now w.approved_last_seen w.approved_command_timeout)
    then append_finding (some ("approved_command_timeout", w.approved_command_timeout_triggers_mrm))
        result
    else result

unfoldable pub evaluate_watchdogs : WatchdogInput → WatchdogResult
unfolding check_teleop check_hardware check_approved
evaluate_watchdogs w =
    check_approved w
      (check_hardware w (check_teleop w (record { warnings = []; mrm_reasons = [] })))
