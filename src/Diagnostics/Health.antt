-- ===== src/Diagnostics/Health.antt =====
-- How diagnostics_aggregator_node.py assesses the runtime.
use huma_ware.Common.{◌≡◌, refl, ◌↔◌, ◌⊎◌, true, false, [], ◌∷◌, arith, elem, is_nonempty}
use huma_ware.Ros.Time.{Time}
use huma_ware.Msgs.SafetyState.{state_warn, state_fault, state_estop, state_mrm}
use huma_ware.Msgs.LocomotionState
use huma_ware.Msgs.HealthState.{HealthState, health_ok, health_warn, health_error, health_stale}
use huma_ware.Diagnostics.Topics.{evaluate_health}
use huma_ware.Diagnostics.Node.{Params, Samples, build_health, publish}

-- What makes the runtime unhealthy, worst first, by the fields of a health message.
abbrev pub IsFaulty : HealthState → Type 0
IsFaulty h =
    (elem h.safety_state (state_fault ∷ state_estop ∷ state_mrm ∷ []) ≡ true)
    ⊎ (h.locomotion_state ≡ LocomotionState.state_fault)
    ⊎ (is_nonempty h.active_faults ≡ true)

abbrev pub IsWarned : HealthState → Type 0
IsWarned h = (h.safety_state ≡ state_warn) ⊎ (is_nonempty h.active_warnings ≡ true)

pub record Assessed (h : HealthState) : Type 0 where
  pub stale : (h.state ≡ health_stale) ↔ (is_nonempty h.stale_topics ≡ true)
  pub error : (h.state ≡ health_error) ↔ ((is_nonempty h.stale_topics ≡ false) × IsFaulty h)
  pub warn :
      (h.state ≡ health_warn) ↔ ((is_nonempty h.stale_topics ≡ false) × ¬ IsFaulty h × IsWarned h)
  pub ok :
      (h.state ≡ health_ok) ↔ ((is_nonempty h.stale_topics ≡ false) × ¬ IsFaulty h × ¬ IsWarned h)

evaluate_health-Assessed :
    (h : HealthState)
    → h.state
      ≡ (evaluate_health h.safety_state h.locomotion_state h.active_faults h.active_warnings
          h.stale_topics).0
    → Assessed h
unfolding evaluate_health
evaluate_health-Assessed h e = ground arith

module _ {F : Type 0} (p : Params) (now : Time) where
  -- The published health is STALE exactly with a stale topic, else ERROR exactly with a safety state
  -- FAULT, ESTOP or MRM, a locomotion fault or an active fault, else WARN exactly with the safety
  -- state WARN or an active warning, else OK, by the fields of the same message.
  pub publish-Assessed : (samples : Samples F) → Assessed (publish p now samples).0
  unfolding publish build_health
  publish-Assessed samples = evaluate_health-Assessed (publish p now samples).0 refl
