-- ===== src/ModeManager/Traces.antt =====
-- mode_manager_node.py over every sequence of callbacks.
use huma_ware.Common.{ℕ, String, ◌≡◌, refl, true, false, List, [], ◌∷◌, arith, elem, All}
use huma_ware.Common.Int.{pos, negsuc}
use huma_ware.Common.Dict.{get, text_key}
use huma_ware.Common.Text.{lower}
use huma_ware.Ros.Time.{Time}
use huma_ware.ModeManager.Transition.{mode_names, mode_values, evaluate_transition}
use huma_ware.ModeManager.Node.{
  InitialMode, text, number, or_inactive, parse_initial_mode, ModeManager, init, Clock,
  SetModeRequest, TakeoverRequest, on_safety_state, handle_set_mode, handle_takeover,
}
use huma_ware.Msgs.SafetyState.{state_unknown, state_fault, state_estop, state_mrm}
use huma_ware.Msgs.ModeState.{mode_shutdown, mode_autonomy, mode_ai_policy, mode_teleop}

pub data Event : Type 0 where
  set_mode : Clock → SetModeRequest → Event
  takeover : Clock → TakeoverRequest → Event
  safety_state : ℕ → Event

unfoldable pub step : String → Event → ModeManager → ModeManager
unfolding on_safety_state
step robot_id (set_mode clock r) m = (handle_set_mode robot_id clock r m).state
step robot_id (takeover clock r) m = (handle_takeover robot_id clock r m).state
step robot_id (safety_state state) m = on_safety_state state m

unfoldable pub run : String → List Event → ModeManager → ModeManager
run robot_id [] m = m
run robot_id (e ∷ es) m = run robot_id es (step robot_id e m)

abbrev pub IsMode : ModeManager → Type 0
IsMode m = elem m.active_mode mode_values ≡ true

-- Every safety state that the run brings is one that blocks autonomy.
abbrev pub BlocksAutonomy : Event → Type 0
BlocksAutonomy (safety_state s) =
    elem s (state_unknown ∷ state_fault ∷ state_estop ∷ state_mrm ∷ []) ≡ true
BlocksAutonomy _ = Unit {0}

pub record IsGrounded (m : ModeManager) : Type 0 where
  pub mode : elem m.active_mode (mode_autonomy ∷ mode_ai_policy ∷ []) ≡ false
  pub safety :
      elem m.safety_state (state_unknown ∷ state_fault ∷ state_estop ∷ state_mrm ∷ []) ≡ true

-- No safety state arrives in the run.
abbrev pub NoSafety : Event → Type 0
NoSafety (safety_state s) = ⊥
NoSafety _ = Unit {0}

pub record IsUnseen (m : ModeManager) : Type 0 where
  pub mode : elem m.active_mode (mode_teleop ∷ mode_autonomy ∷ mode_ai_policy ∷ []) ≡ false
  pub seen : m.safety_seen ≡ false

module _ (robot_id : String) where
  step-IsMode : (e : Event) (m : ModeManager) → IsMode m → IsMode (step robot_id e m)
  unfolding step handle_set_mode handle_takeover evaluate_transition
  step-IsMode (set_mode clock r) m h = ground arith
  step-IsMode (takeover clock r) m h = ground arith
  step-IsMode (safety_state s) m h = h

  run-IsMode : (es : List Event) (m : ModeManager) → IsMode m → IsMode (run robot_id es m)
  unfolding run
  run-IsMode [] m h = h
  run-IsMode (e ∷ es) m h = run-IsMode es (step robot_id e m) (step-IsMode e m h)

  get-mode_names : (name : String) → elem (or_inactive (get name mode_names)) mode_values ≡ true
  unfolding get
  get-mode_names name = ground arith

  init-IsMode : (initial : InitialMode) (now : Time) → IsMode (init initial now)
  unfolding init parse_initial_mode
  init-IsMode (text name) now = get-mode_names (lower name)
  init-IsMode (number (pos n)) now = ground arith
  init-IsMode (number (negsuc n)) now = refl

  -- From any `initial_mode` parameter and through any callbacks, the active mode is one of the seven.
  run-init-IsMode :
      (initial : InitialMode) (now : Time) (es : List Event)
      → IsMode (run robot_id es (init initial now))
  run-init-IsMode initial now es = run-IsMode es (init initial now) (init-IsMode initial now)

  step-shutdown :
      (e : Event) (m : ModeManager)
      → m.active_mode ≡ mode_shutdown
      → (step robot_id e m).active_mode ≡ mode_shutdown
  unfolding step handle_set_mode handle_takeover evaluate_transition
  step-shutdown (set_mode clock r) m h = ground arith
  step-shutdown (takeover clock r) m h = ground arith
  step-shutdown (safety_state s) m h = h

  -- A robot that is shut down stays so through any requests, takeovers and safety states.
  pub shutdown_terminal :
      (es : List Event) (m : ModeManager)
      → m.active_mode ≡ mode_shutdown
      → (run robot_id es m).active_mode ≡ mode_shutdown
  unfolding run
  shutdown_terminal [] m h = h
  shutdown_terminal (e ∷ es) m h = shutdown_terminal es (step robot_id e m) (step-shutdown e m h)

  step-IsGrounded :
      (e : Event) (m : ModeManager)
      → BlocksAutonomy e
      → IsGrounded m
      → IsGrounded (step robot_id e m)
  unfolding step handle_set_mode handle_takeover evaluate_transition
  step-IsGrounded (set_mode clock r) m b h = ground arith
  step-IsGrounded (takeover clock r) m b h = ground arith
  step-IsGrounded (safety_state s) m b h = record { mode = h.mode; safety = b }

  -- From a mode other than autonomy and AI policy, with a blocking safety state, no sequence of
  -- callbacks whose safety states all block (UNKNOWN, FAULT, ESTOP, MRM) reaches autonomy or AI policy.
  pub run-IsGrounded :
      (es : List Event) (m : ModeManager)
      → All BlocksAutonomy es
      → IsGrounded m
      → IsGrounded (run robot_id es m)
  unfolding run
  run-IsGrounded [] m b h = h
  run-IsGrounded (e ∷ es) m b h =
      run-IsGrounded es (step robot_id e m) b.1 (step-IsGrounded e m b.0 h)

  step-IsUnseen :
      (e : Event) (m : ModeManager) → NoSafety e → IsUnseen m → IsUnseen (step robot_id e m)
  unfolding step handle_set_mode handle_takeover evaluate_transition
  step-IsUnseen (set_mode clock r) m n h = ground arith
  step-IsUnseen (takeover clock r) m n h = ground arith
  step-IsUnseen (safety_state s) m n h = absurd n

  -- From an inactive mode, before any safety state was seen, no sequence of callbacks without one
  -- reaches teleop, autonomy or AI policy.
  run-IsUnseen :
      (es : List Event) (m : ModeManager)
      → All NoSafety es
      → IsUnseen m
      → IsUnseen (run robot_id es m)
  unfolding run
  run-IsUnseen [] m n h = h
  run-IsUnseen (e ∷ es) m n h = run-IsUnseen es (step robot_id e m) n.1 (step-IsUnseen e m n.0 h)
