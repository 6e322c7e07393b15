-- ===== src/SafetyManager/Classify.antt =====
-- What `_publish_state` of safety_manager_node.py publishes: the safety state by precedence, the
-- MRM state that goes with it, and the reason.
use huma_ware.Common.{
  String, ◌≡◌, refl, ◌≢◌, ◌↔◌, ◌⊎◌, inl, Bool, true, false, ◌||◌, List, [], ◌∷◌, arith, elem, In,
  is_nonempty, eq_iff,
}
use huma_ware.Ros.Time.{Time}
use huma_ware.Msgs.SafetyState
use huma_ware.Msgs.SafetyState.{SafetyState}
use huma_ware.Msgs.MrmState
use huma_ware.Msgs.MrmState.{MrmState}
use huma_ware.SafetyManager.Watchdog.{evaluate_watchdogs}
use huma_ware.SafetyManager.Trips.{Trips, listed, evaluate_watchdogs-Trips}
use huma_ware.SafetyManager.Reason.{select_mrm_reason}
use huma_ware.SafetyManager.Node.{
  Params, SafetyManager, watchdog_input, mrm_demanded, publish_state,
}

nonempty-In : (xs : List String) → (is_nonempty xs ≡ true) ↔ ((r : String) × In r xs)
nonempty-In [] = (λ h. cc, λ h. absurd h.1)
nonempty-In (x ∷ xs) = (λ h. (x, inl refl), λ h. refl)

module _ (p : Params) (now : Time) (s : SafetyManager) where
  -- A watchdog trips, and its finding demands an MRM (`severe`) or only warns.
  abbrev pub SomeTrips : Bool → Type 0
  SomeTrips severe = (reason : String) × Trips (watchdog_input p now s) severe reason

  -- The three sources of an MRM: the parameter, the service, a watchdog.
  abbrev pub IsDemanded : Type 0
  IsDemanded = (p.mrm_active ≡ true) ⊎ (s.service_mrm_active ≡ true) ⊎ SomeTrips true

  listed-SomeTrips :
      (severe : Bool)
      → (is_nonempty (listed severe (evaluate_watchdogs (watchdog_input p now s))) ≡ true)
        ↔ SomeTrips severe
  listed-SomeTrips severe =
      let found = nonempty-In (listed severe (evaluate_watchdogs (watchdog_input p now s))) in
      (
        λ h.
            let (r, i) = found.0 h in
            (r, (evaluate_watchdogs-Trips (watchdog_input p now s) severe r).0 i),
        λ h. found.1 (h.0, (evaluate_watchdogs-Trips (watchdog_input p now s) severe h.0).1 h.1),
      )

  mrm_demanded_iff :
      (mrm_demanded p (evaluate_watchdogs (watchdog_input p now s)) s ≡ true) ↔ IsDemanded
  mrm_demanded_iff = ground (arith, listed-SomeTrips true)

  abbrev pub published : SafetyState
  published = (publish_state p now s).1

  abbrev pub published_mrm : MrmState
  published_mrm = (publish_state p now s).2

  -- The published safety state is ESTOP exactly when the E-stop is engaged; otherwise MRM exactly
  -- when the parameter, the service or a tripped watchdog demands one; otherwise WARN exactly when a
  -- watchdog trips that only warns; and OK exactly when none of these holds.
  pub publish_state-precedence :
      ((published.state ≡ SafetyState.state_estop) ↔ (p.estop_engaged ≡ true))
      × ((published.state ≡ SafetyState.state_mrm) ↔ ((p.estop_engaged ≡ false) × IsDemanded))
      × ((published.state ≡ SafetyState.state_warn)
          ↔ ((p.estop_engaged ≡ false) × ¬ IsDemanded × SomeTrips false))
      × ((published.state ≡ SafetyState.state_ok)
          ↔ ((p.estop_engaged ≡ false) × ¬ IsDemanded × ¬ SomeTrips false))
  unfolding publish_state
  publish_state-precedence = ground (arith, mrm_demanded_iff, listed-SomeTrips false)

  -- Each publication agrees with itself: the MRM state is NONE exactly beside the safety states OK and
  -- WARN, FAULT exactly beside ESTOP and STOP exactly beside MRM; the operator is asked to intervene
  -- exactly under ESTOP and MRM; and the node remembers the safety state that it published.
  publish_state-agree :
      ((published_mrm.state ≡ MrmState.state_none)
        ↔ (elem published.state (SafetyState.state_ok ∷ SafetyState.state_warn ∷ []) ≡ true))
      × ((published_mrm.state ≡ MrmState.state_fault) ↔ (published.state ≡ SafetyState.state_estop))
      × ((published_mrm.state ≡ MrmState.state_stop) ↔ (published.state ≡ SafetyState.state_mrm))
      × (published_mrm.operator_intervention_requested
          ≡ elem published.state (SafetyState.state_estop ∷ SafetyState.state_mrm ∷ []))
      × ((publish_state p now s).0.current_safety_state ≡ published.state)
  unfolding publish_state
  publish_state-agree = ground arith

-- The watchdogs of the node have texts for reasons.
Trips-nonempty :
    (p : Params) (now : Time) (s : SafetyManager) (severe : Bool) (r : String)
    → Trips (watchdog_input p now s) severe r
    → r ≢ ""
Trips-nonempty p now s severe r h = ground (
  arith,
  eq_iff "teleop_heartbeat_missing" "",
  eq_iff "teleop_heartbeat_timeout" "",
  eq_iff "hardware_heartbeat_missing" "",
  eq_iff "hardware_heartbeat_timeout" "",
  eq_iff "approved_command_timeout" "",
)

select_mrm_reason-empty :
    (pa : Bool) (pr : String) (sa : Bool) (sr : String) (ws : List String)
    → ((r : String) → In r ws → r ≢ "")
    → (select_mrm_reason pa pr sa sr ws ≡ "") ↔ (pa || (sa || is_nonempty ws) ≡ false)
unfolding select_mrm_reason
select_mrm_reason-empty pa pr sa sr [] h = ground (
  arith,
  eq_iff pr "",
  eq_iff sr "",
  eq_iff "parameter_mrm_active" "",
  eq_iff "service_mrm_active" "",
)
select_mrm_reason-empty pa pr sa sr (w ∷ ws) h =
    ground (arith, eq_iff pr "", eq_iff sr "", h w (inl refl))

-- The published MRM reason is empty exactly when the published safety state says that no MRM is
-- active.
publish_state-reason :
    (p : Params) (now : Time) (s : SafetyManager)
    → ((publish_state p now s).2.reason ≡ "") ↔ ((publish_state p now s).1.mrm_active ≡ false)
unfolding publish_state
publish_state-reason p now s =
    select_mrm_reason-empty p.mrm_active p.mrm_reason s.service_mrm_active s.service_mrm_reason
      (evaluate_watchdogs (watchdog_input p now s)).mrm_reasons
      (λ r i.
        Trips-nonempty p now s true r
          ((evaluate_watchdogs-Trips (watchdog_input p now s) true r).0 i))
