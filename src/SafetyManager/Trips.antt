-- ===== src/SafetyManager/Trips.antt =====
-- When each watchdog of safety_manager_node.py raises a finding, stated apart from the code.
use Prim.Native.String.{◌++◌}
use huma_ware.Common.{
  String, Option, ◌≡◌, ◌↔◌, ◌⊎◌, Bool, true, false, none, some, List, [], ◌∷◌, arith, elem, In,
}
use huma_ware.Ros.Time.{Time, older_than}
use huma_ware.Msgs.ModeState.{mode_teleop, mode_autonomy, mode_ai_policy}
use huma_ware.SafetyManager.Watchdog.{
  HeartbeatPolicy, WatchdogInput, WatchdogResult, evaluate_watchdogs,
}

-- A heartbeat trips when it was never seen, or was last seen longer ago than its timeout.
abbrev pub HeartbeatTrips : Time → Option Time → HeartbeatPolicy → String → Type 0
HeartbeatTrips now none policy reason = reason ≡ policy.name ++ "_missing"
HeartbeatTrips now (some t) policy reason =
    (older_than now t policy.timeout ≡ true) × (reason ≡ policy.name ++ "_timeout")

abbrev pub ApprovedTrips : Time → Option Time → WatchdogInput → String → Type 0
ApprovedTrips now none w reason = ⊥
ApprovedTrips now (some t) w reason =
    (older_than now t w.approved_command_timeout ≡ true) × (reason ≡ "approved_command_timeout")

-- `Trips w severe reason`: some watchdog that is armed in this mode trips with this reason, and is
-- configured to demand an MRM (`severe`) or only to warn.
abbrev pub Trips : WatchdogInput → Bool → String → Type 0
Trips w severe reason =
    ((w.active_mode ≡ mode_teleop)
      × (w.require_teleop_heartbeat ≡ true)
      × (w.teleop_policy.trigger_mrm ≡ severe)
      × HeartbeatTrips w.now w.teleop_last_seen w.teleop_policy reason)
    ⊎ ((elem w.active_mode (mode_teleop ∷ mode_autonomy ∷ mode_ai_policy ∷ []) ≡ true)
        × (w.require_hardware_heartbeat ≡ true)
        × (w.hardware_policy.trigger_mrm ≡ severe)
        × HeartbeatTrips w.now w.hardware_last_seen w.hardware_policy reason)
    ⊎ ((elem w.active_mode (mode_teleop ∷ mode_autonomy ∷ mode_ai_policy ∷ []) ≡ true)
        × (w.monitor_approved_commands ≡ true)
        × (w.approved_command_timeout_triggers_mrm ≡ severe)
        × ApprovedTrips w.now w.approved_last_seen w reason)

abbrev pub listed : Bool → WatchdogResult → List String
listed true result = result.mrm_reasons
listed false result = result.warnings

-- A text is among the MRM reasons (warnings) of `evaluate_watchdogs` exactly when an armed watchdog
-- trips with it and is configured to demand an MRM (to warn). The teleop heartbeat is armed in
-- teleop mode alone, the other two in the three active modes; a heartbeat that was never seen trips
-- at once, while approved commands trip only after a first one was seen.
pub evaluate_watchdogs-Trips :
    (w : WatchdogInput) (severe : Bool) (reason : String)
    → In reason (listed severe (evaluate_watchdogs w)) ↔ Trips w severe reason
unfolding evaluate_watchdogs
evaluate_watchdogs-Trips w severe reason = ground arith
