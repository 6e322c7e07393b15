-- ===== src/ModeManager/Services.antt =====
-- The two services of mode_manager_node.py: the state, the reply and the publications agree.
use huma_ware.Common.{◌∷◌, [], String, ◌≡◌, ◌↔◌, true, false, none, some, arith, elem, or_default}
use huma_ware.Msgs.ModeTransitionState.{outcome_accepted, outcome_rejected}
use huma_ware.ModeManager.Transition.{mode_values, evaluate_transition}
use huma_ware.ModeManager.Rules.{Permitted, evaluate_transition-Permitted}
use huma_ware.ModeManager.Node.{
  ModeManager, Clock, SetModeRequest, SetModeResponse, TakeoverRequest, Effect, handle_set_mode,
  handle_takeover, mode_message,
}
use huma_ware.Msgs.ModeState.{mode_teleop, mode_autonomy, mode_ai_policy}

module _ (robot_id : String) (clock : Clock) (m : ModeManager) where
  -- The effect of an accepted request: state, transition and publication tell of the new mode.
  abbrev pub SetAccepted : SetModeRequest → Effect SetModeResponse → Type 0
  SetAccepted r e =
      (e.state.active_mode ≡ r.requested_mode)
      × (e.state.requested_mode ≡ r.requested_mode)
      × (e.state.owner ≡ or_default r.requester "anonymous")
      × (e.state.transition_reason ≡ or_default r.reason "mode_set")
      × (e.state.active_since ≡ clock.applied_at)
      × (e.transition.outcome ≡ outcome_accepted)
      × (e.published ≡ some (mode_message robot_id clock.published_at e.state))

  -- The effect of a rejected one: the active mode and its history stay, `mode/state` is not published.
  abbrev pub SetRejected : Effect SetModeResponse → Type 0
  SetRejected e =
      (e.state.active_mode ≡ m.active_mode)
      × (e.state.owner ≡ m.owner)
      × (e.state.transition_reason ≡ m.transition_reason)
      × (e.state.active_since ≡ m.active_since)
      × (e.transition.outcome ≡ outcome_rejected)
      × (e.published ≡ none)

  -- A set request is accepted exactly when the mode is one of the seven and the transition is permitted.
  -- Accepted, it makes the mode active, requested, owned and dated, reports OUTCOME_ACCEPTED and
  -- publishes the new mode state; rejected, it keeps the active mode, its owner, reason and date, reports
  -- OUTCOME_REJECTED and publishes no mode state. The reply and the transition message name the active
  -- mode after the request and the same text, the transition names the mode before it, and what is
  -- known of safety stays.
  pub handle_set_mode-outcome :
      (r : SetModeRequest)
      → let e = handle_set_mode robot_id clock r m in
        ((e.response.accepted ≡ true) ↔ (
          (elem r.requested_mode mode_values ≡ true)
          × Permitted m.active_mode r.requested_mode m.safety_seen m.safety_state false))
        × (e.response.accepted ≡ true → SetAccepted r e)
        × (e.response.accepted ≡ false → SetRejected e)
        × (e.response.active_mode ≡ e.state.active_mode)
        × (e.transition.active_mode ≡ e.state.active_mode)
        × (e.transition.previous_mode ≡ m.active_mode)
        × (e.transition.message ≡ e.response.message)
        × (e.state.safety_state ≡ m.safety_state)
        × (e.state.safety_seen ≡ m.safety_seen)
  unfolding handle_set_mode
  handle_set_mode-outcome r = ground (
    arith,
    evaluate_transition-Permitted m.active_mode r.requested_mode m.safety_seen m.safety_state false,
  )

  -- A takeover is accepted exactly from the three active modes. Accepted, it makes teleop the active and
  -- requested mode; rejected, it changes nothing. In both cases the outcome is reported, the reply and
  -- the transition name the resulting mode, the reply names the mode before it, and the resulting mode
  -- state is published.
  handle_takeover-outcome :
      (r : TakeoverRequest)
      → let e = handle_takeover robot_id clock r m in
        ((e.response.accepted ≡ true)
          ↔ (elem m.active_mode (mode_teleop ∷ mode_autonomy ∷ mode_ai_policy ∷ []) ≡ true))
        × (e.response.accepted ≡ true
            → (e.state.active_mode ≡ mode_teleop)
              × (e.state.requested_mode ≡ mode_teleop)
              × (e.transition.outcome ≡ outcome_accepted))
        × (e.response.accepted ≡ false → (e.state ≡ m) × (e.transition.outcome ≡ outcome_rejected))
        × (e.response.active_mode ≡ e.state.active_mode)
        × (e.response.previous_mode ≡ m.active_mode)
        × (e.transition.active_mode ≡ e.state.active_mode)
        × (e.published ≡ some (mode_message robot_id clock.published_at e.state))
  unfolding handle_takeover evaluate_transition
  handle_takeover-outcome r = ground arith
