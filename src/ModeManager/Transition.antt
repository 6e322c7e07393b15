-- ===== src/ModeManager/Transition.antt =====
-- mode_manager_node.py, lines 13 to 42 and 228 to 258: the modes and the rules of their transitions.
use huma_ware.Common.{
  ℕ, String, Bool, true, false, ◌&&◌, not, List, [], ◌∷◌, ◌==◌, elem, if◌then◌else◌,
}
use huma_ware.Common.Dict.{Dict}
use huma_ware.Msgs.ModeState.{
  mode_maintenance, mode_inactive, mode_teleop, mode_autonomy, mode_ai_policy, mode_fault,
  mode_shutdown,
}
use huma_ware.Msgs.SafetyState.{state_unknown, state_fault, state_estop, state_mrm}

abbrev pub mode_names : Dict String ℕ
mode_names =
    ("maintenance", mode_maintenance)
    ∷ ("inactive", mode_inactive)
    ∷ ("teleop", mode_teleop)
    ∷ ("autonomy", mode_autonomy)
    ∷ ("ai_policy", mode_ai_policy)
    ∷ ("fault", mode_fault)
    ∷ ("shutdown", mode_shutdown)
    ∷ []

-- `set(MODE_NAMES.values())`
abbrev pub mode_values : List ℕ
mode_values =
    mode_maintenance ∷ mode_inactive ∷ mode_teleop ∷ mode_autonomy ∷ mode_ai_policy ∷ mode_fault
    ∷ mode_shutdown ∷ []

abbrev pub active_modes : List ℕ
active_modes = mode_teleop ∷ mode_autonomy ∷ mode_ai_policy ∷ []

abbrev pub autonomy_modes : List ℕ
autonomy_modes = mode_autonomy ∷ mode_ai_policy ∷ []

abbrev pub ai_policy_entry_modes : List ℕ
ai_policy_entry_modes = mode_teleop ∷ mode_autonomy ∷ []

abbrev pub autonomy_blocking_safety_states : List ℕ
autonomy_blocking_safety_states = state_unknown ∷ state_fault ∷ state_estop ∷ state_mrm ∷ []

unfoldable pub evaluate_transition : ℕ → ℕ → Bool → ℕ → Bool → Bool × String
evaluate_transition active_mode requested_mode safety_seen safety_state takeover =
    if active_mode == mode_shutdown && not (requested_mode == mode_shutdown)
    then (false, "shutdown_is_terminal")
    else if requested_mode == active_mode
    then (true, "mode_unchanged")
    else if takeover
    then (if not (elem active_mode active_modes)
        then (false, "takeover_requires_autonomy_ai_or_teleop")
        else (true, "operator_takeover_accepted"))
    else if elem requested_mode active_modes && not safety_seen
    then (false, "safety_state_unknown")
    else if elem requested_mode autonomy_modes && elem safety_state autonomy_blocking_safety_states
    then (false, "safety_state_blocks_autonomy")
    else if active_mode == mode_maintenance && elem requested_mode autonomy_modes
    then (false, "maintenance_requires_intermediate_mode")
    else if requested_mode == mode_ai_policy && not (elem active_mode ai_policy_entry_modes)
    then (false, "ai_policy_requires_active_runtime_mode")
    else (true, "mode accepted")
