-- ===== src/ModeManager/Tests.antt =====
-- mode_manager_node.py at concrete inputs, some from its test_mode_transitions.py.
use huma_ware.Common.{ℕ, ◌≡◌, refl, ◌↔◌, true, false, List, [], ◌∷◌, elem}
use huma_ware.Common.Int.{pos}
use huma_ware.Common.Dict.{get}
use huma_ware.Common.Text.{str, lower}
use huma_ware.Msgs.ModeState.{
  mode_inactive, mode_maintenance, mode_teleop, mode_autonomy, mode_ai_policy, mode_shutdown,
}
use huma_ware.Msgs.SafetyState.{state_ok, state_mrm}
use huma_ware.ModeManager.Transition.{mode_values, evaluate_transition}
use huma_ware.ModeManager.Rules.{Permitted, evaluate_transition-Permitted}
use huma_ware.ModeManager.Node.{
  text, number, parse_initial_mode, ModeManager, init, Clock, SetModeRequest, TakeoverRequest,
  handle_set_mode,
}
use huma_ware.ModeManager.Services.{SetAccepted, SetRejected, handle_set_mode-outcome}
use huma_ware.ModeManager.Traces.{
  Event, set_mode, takeover, safety_state, run, shutdown_terminal, IsGrounded, run-IsGrounded,
}

initial_mode_folds_case : parse_initial_mode (text "TeleOp") ≡ mode_teleop
unfolding parse_initial_mode get lower
initial_mode_folds_case = refl

initial_mode_unknown : parse_initial_mode (number (pos 9)) ≡ mode_inactive
unfolding parse_initial_mode
initial_mode_unknown = refl

abbrev clock : Clock
clock = record { applied_at = 10; reported_at = 11; published_at = 12 }

abbrev teleop_ok : ModeManager
teleop_ok = record {
  requested_mode = mode_teleop;
  active_mode = mode_teleop;
  owner = "op";
  transition_reason = "start";
  active_since = 1;
  safety_state = state_ok;
  safety_seen = true;
}

abbrev ask : ℕ → SetModeRequest
ask mode = record { requested_mode = mode; requester = ""; reason = "" }

unsupported_mode :
    (handle_set_mode "r" clock (ask 42) teleop_ok).response.message ≡ "unsupported mode: 42"
unfolding handle_set_mode str
unsupported_mode = refl

policy_from_teleop :
    (handle_set_mode "r" clock (ask mode_ai_policy) teleop_ok).state.active_mode ≡ mode_ai_policy
unfolding handle_set_mode evaluate_transition
policy_from_teleop = refl

evaluate_transition-Permitted_example :
    ((evaluate_transition mode_maintenance mode_autonomy true state_ok false).0 ≡ true)
    ↔ Permitted mode_maintenance mode_autonomy true state_ok false
evaluate_transition-Permitted_example =
    evaluate_transition-Permitted mode_maintenance mode_autonomy true state_ok false

handle_set_mode-outcome_example :
    let e = handle_set_mode "r" clock (ask mode_ai_policy) teleop_ok in
    ((e.response.accepted ≡ true) ↔ (
      (elem mode_ai_policy mode_values ≡ true)
      × Permitted mode_teleop mode_ai_policy true state_ok false))
    × (e.response.accepted ≡ true → SetAccepted "r" clock teleop_ok (ask mode_ai_policy) e)
    × (e.response.accepted ≡ false → SetRejected "r" clock teleop_ok e)
    × (e.response.active_mode ≡ e.state.active_mode)
    × (e.transition.active_mode ≡ e.state.active_mode)
    × (e.transition.previous_mode ≡ mode_teleop)
    × (e.transition.message ≡ e.response.message)
    × (e.state.safety_state ≡ state_ok)
    × (e.state.safety_seen ≡ true)
handle_set_mode-outcome_example = handle_set_mode-outcome "r" clock teleop_ok (ask mode_ai_policy)

abbrev operator : TakeoverRequest
operator = record { requester = "op"; reason = "" }

abbrev requests : List Event
requests =
    set_mode clock (ask mode_teleop)
    ∷ takeover clock operator
    ∷ safety_state state_mrm
    ∷ set_mode clock (ask mode_autonomy)
    ∷ []

abbrev down : ModeManager
down = record teleop_ok { active_mode = mode_shutdown; requested_mode = mode_shutdown }

shutdown_terminal_example : (run "r" requests down).active_mode ≡ mode_shutdown
shutdown_terminal_example = shutdown_terminal "r" requests down refl

run-IsGrounded_example : IsGrounded (run "r" requests (init (text "inactive") 0))
unfolding init parse_initial_mode get lower
run-IsGrounded_example =
    run-IsGrounded "r" requests (init (text "inactive") 0) (tt, (tt, (refl, (tt, tt))))
      (record { mode = refl; safety = refl })
