-- ===== src/ModeManager/Rules.antt =====
-- The transition rules of mode_manager_node.py as one condition, and the texts of the refusals.
use huma_ware.Common.{◌∷◌, [], ℕ, ◌≡◌, ◌≢◌, ◌↔◌, ◌⊎◌, Bool, true, false, arith, elem}
use huma_ware.ModeManager.Transition.{evaluate_transition}
use huma_ware.Msgs.SafetyState.{state_unknown, state_fault, state_estop, state_mrm}
use huma_ware.Msgs.ModeState.{
  mode_maintenance, mode_ai_policy, mode_shutdown, mode_autonomy, mode_teleop,
}

-- What a request of another mode has to meet, outside of a takeover.
pub record MayEnter (active requested : ℕ) (seen : Bool) (safety : ℕ) : Type 0 where
  pub seen_first :
      elem requested (mode_teleop ∷ mode_autonomy ∷ mode_ai_policy ∷ []) ≡ true → seen ≡ true
  pub not_blocked :
      elem requested (mode_autonomy ∷ mode_ai_policy ∷ []) ≡ true
      → elem safety (state_unknown ∷ state_fault ∷ state_estop ∷ state_mrm ∷ []) ≡ false
  pub not_from_maintenance :
      elem requested (mode_autonomy ∷ mode_ai_policy ∷ []) ≡ true → active ≢ mode_maintenance
  pub policy_entry :
      requested ≡ mode_ai_policy → elem active (mode_teleop ∷ mode_autonomy ∷ []) ≡ true

abbrev pub Permitted : ℕ → ℕ → Bool → ℕ → Bool → Type 0
Permitted active requested seen safety takeover =
    (requested ≡ active)
    ⊎ ((active ≢ mode_shutdown)
        × (((takeover ≡ true)
              × (elem active (mode_teleop ∷ mode_autonomy ∷ mode_ai_policy ∷ []) ≡ true))
            ⊎ ((takeover ≡ false) × MayEnter active requested seen safety)))

-- `evaluate_transition` accepts exactly when the mode is the active one already, or the robot is not shut
-- down and either this is a takeover from an active mode, or it is none and: an active mode needs a
-- safety state that was seen, an autonomy mode needs one that does not block and is not entered from
-- maintenance, and AI policy is entered from teleop or autonomy.
pub evaluate_transition-Permitted :
    (active requested : ℕ) (seen : Bool) (safety : ℕ) (takeover : Bool)
    → ((evaluate_transition active requested seen safety takeover).0 ≡ true)
      ↔ Permitted active requested seen safety takeover
unfolding evaluate_transition
evaluate_transition-Permitted active requested seen safety takeover = ground arith
