-- ===== src/SafetyManager/Tests.antt =====
-- safety_manager_node.py at concrete inputs, some from src/humaware_safety/.../test_safety_logic.py.
use huma_ware.Common.{◌≡◌, refl, ◌↔◌, ◌⊎◌, true, false, none, some, List, [], ◌∷◌, All, In}
use huma_ware.Msgs.ModeState.{mode_teleop}
use huma_ware.Msgs.SafetyState
use huma_ware.SafetyManager.Watchdog.{WatchdogInput, evaluate_watchdogs}
use huma_ware.SafetyManager.Trips.{Trips, listed, evaluate_watchdogs-Trips}
use huma_ware.SafetyManager.Reason.{select_mrm_reason}
use huma_ware.SafetyManager.Node.{
  Params, default_params, SafetyManager, init, Request, watchdog_input, publish_state,
  handle_clear_mrm,
}
use huma_ware.SafetyManager.Classify.{IsDemanded, SomeTrips, publish_state-precedence}
use huma_ware.SafetyManager.Latch.{
  Event, trigger_mrm, clear_mrm, timer, mode_state, approved_command, Blocks, publications,
  trigger_mrm-latches, handle_clear_mrm-outcome,
}

abbrev strict : Params
strict = record default_params {
  teleop_heartbeat_timeout_triggers_mrm = true;
  require_hardware_heartbeat = true;
  hardware_heartbeat_timeout_triggers_mrm = false;
}

abbrev in_teleop : SafetyManager
in_teleop = record init { active_mode = mode_teleop; hardware_heartbeat_at = some 1_000_000_000 }

abbrev late : WatchdogInput
late = watchdog_input strict 5_000_000_000 in_teleop

-- A missing teleop heartbeat demands an MRM, a stale hardware heartbeat warns.
late_findings : evaluate_watchdogs late ≡ record {
  warnings = "hardware_heartbeat_timeout" ∷ [];
  mrm_reasons = "teleop_heartbeat_missing" ∷ [];
}
unfolding evaluate_watchdogs
late_findings = refl

evaluate_watchdogs-Trips_example :
    In "teleop_heartbeat_missing" (listed true (evaluate_watchdogs late))
    ↔ Trips late true "teleop_heartbeat_missing"
evaluate_watchdogs-Trips_example = evaluate_watchdogs-Trips late true "teleop_heartbeat_missing"

parameter_reason_wins :
    select_mrm_reason true "maintenance" true "operator" ("teleop_heartbeat_timeout" ∷ [])
    ≡ "maintenance"
unfolding select_mrm_reason
parameter_reason_wins = refl

publish_state-precedence_example :
    let state = (publish_state strict 5_000_000_000 in_teleop).1.state in
    ((state ≡ SafetyState.state_estop) ↔ (strict.estop_engaged ≡ true))
    × ((state ≡ SafetyState.state_mrm)
        ↔ ((strict.estop_engaged ≡ false) × IsDemanded strict 5_000_000_000 in_teleop))
    × ((state ≡ SafetyState.state_warn) ↔ (
        (strict.estop_engaged ≡ false)
        × ¬ IsDemanded strict 5_000_000_000 in_teleop
        × SomeTrips strict 5_000_000_000 in_teleop false))
    × ((state ≡ SafetyState.state_ok) ↔ (
        (strict.estop_engaged ≡ false)
        × ¬ IsDemanded strict 5_000_000_000 in_teleop
        × ¬ SomeTrips strict 5_000_000_000 in_teleop false))
publish_state-precedence_example = publish_state-precedence strict 5_000_000_000 in_teleop

abbrev operator : Request
operator = record { requester = "op"; reason = "" }

abbrev after_trigger : List Event
after_trigger =
    timer default_params 2
    ∷ mode_state mode_teleop
    ∷ clear_mrm (record default_params { estop_engaged = true }) 3 operator
    ∷ approved_command 4
    ∷ timer default_params 5
    ∷ []

trigger_mrm-latches_example :
    All Blocks (publications (trigger_mrm default_params 1 operator ∷ after_trigger) init)
trigger_mrm-latches_example =
    trigger_mrm-latches default_params 1 operator init after_trigger
      (tt, (tt, (refl, (tt, (tt, tt)))))

handle_clear_mrm-outcome_example :
    let (s', response, out) = handle_clear_mrm strict 5_000_000_000 operator in_teleop in
    ((response.accepted ≡ true) ↔ (strict.estop_engaged ≡ false))
    × (strict.estop_engaged ≡ true → (s' ≡ in_teleop) × (out ≡ none))
    × (strict.estop_engaged ≡ false
        → (s'.service_mrm_active ≡ false)
          × ((response.active_safety_state ≡ SafetyState.state_mrm)
              ↔ ((strict.mrm_active ≡ true) ⊎ SomeTrips strict 5_000_000_000 in_teleop true)))
handle_clear_mrm-outcome_example = handle_clear_mrm-outcome strict 5_000_000_000 operator in_teleop

still_mrm_after_clear :
    (handle_clear_mrm strict 5_000_000_000 operator in_teleop).1.active_safety_state
    ≡ SafetyState.state_mrm
unfolding handle_clear_mrm publish_state evaluate_watchdogs
still_mrm_after_clear = refl
