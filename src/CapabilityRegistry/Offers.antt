-- ===== src/CapabilityRegistry/Offers.antt =====
-- When capability_registry_node.py offers a capability, and which requests the skill server then
-- accepts on its word.
use huma_ware.Common.{ℕ, ◌≡◌, ◌↔◌, true, false, [], ◌∷◌, arith, ◌==◌, elem}
use huma_ware.Common.Dict.{text_key}
use huma_ware.Msgs.Capability
use huma_ware.Msgs.Capability.{Capability}
use huma_ware.Msgs.ModeState.{
  mode_maintenance, mode_inactive, mode_teleop, mode_autonomy, mode_ai_policy, mode_shutdown,
}
use huma_ware.Msgs.SafetyState.{
  state_unknown, state_ok, state_warn, state_fault, state_estop, state_mrm,
}
use huma_ware.CapabilityRegistry.Specs.{
  stand, stop, walk_velocity, turn_in_place, recover_posture, request_teleop,
}
use huma_ware.CapabilityRegistry.Node.{capability_state}

-- The states in which a capability may be used.
abbrev pub IsUsable : ℕ → Type 0
IsUsable state =
    elem state (Capability.state_idle ∷ Capability.state_executing ∷ Capability.state_degraded ∷ [])
    ≡ true

abbrev pub IsSafety : ℕ → Type 0
IsSafety safety =
    elem safety (state_unknown ∷ state_ok ∷ state_warn ∷ state_fault ∷ state_estop ∷ state_mrm ∷ [])
    ≡ true

abbrev pub IsCalm : ℕ → Type 0
IsCalm safety = elem safety (state_ok ∷ state_warn ∷ []) ≡ true

-- When each of the six capabilities is usable.
pub record Offers (mode safety locomotion : ℕ) : Type 0 where
  pub walking :
      IsUsable (capability_state walk_velocity mode safety locomotion)
      ↔ (IsCalm safety × (elem mode (mode_teleop ∷ mode_autonomy ∷ mode_ai_policy ∷ []) ≡ true))
  pub turning :
      IsUsable (capability_state turn_in_place mode safety locomotion)
      ↔ (IsCalm safety × (elem mode (mode_teleop ∷ mode_autonomy ∷ mode_ai_policy ∷ []) ≡ true))
  pub recovery : IsUsable (capability_state recover_posture mode safety locomotion) ↔ (
      (elem safety (state_ok ∷ state_warn ∷ state_mrm ∷ []) ≡ true)
      × (elem mode (mode_maintenance ∷ mode_inactive ∷ mode_teleop ∷ []) ≡ true))
  pub standing :
      IsUsable (capability_state stand mode safety locomotion)
      ↔ (IsCalm safety × (elem mode (mode_maintenance ∷ mode_shutdown ∷ []) ≡ false))
  pub stopping :
      IsUsable (capability_state stop mode safety locomotion) ↔ ((mode == mode_shutdown) ≡ false)
  pub teleop :
      IsUsable (capability_state request_teleop mode safety locomotion)
      ↔ ((mode == mode_shutdown) ≡ false)

module _ (mode safety locomotion : ℕ) (known : IsSafety safety) where
  walk_velocity-IsUsable :
      IsUsable (capability_state walk_velocity mode safety locomotion)
      ↔ (IsCalm safety × (elem mode (mode_teleop ∷ mode_autonomy ∷ mode_ai_policy ∷ []) ≡ true))
  unfolding capability_state
  walk_velocity-IsUsable = ground arith

  turn_in_place-IsUsable :
      IsUsable (capability_state turn_in_place mode safety locomotion)
      ↔ (IsCalm safety × (elem mode (mode_teleop ∷ mode_autonomy ∷ mode_ai_policy ∷ []) ≡ true))
  unfolding capability_state
  turn_in_place-IsUsable = ground arith

  recover_posture-IsUsable : IsUsable (capability_state recover_posture mode safety locomotion) ↔ (
      (elem safety (state_ok ∷ state_warn ∷ state_mrm ∷ []) ≡ true)
      × (elem mode (mode_maintenance ∷ mode_inactive ∷ mode_teleop ∷ []) ≡ true))
  unfolding capability_state
  recover_posture-IsUsable = ground arith

  stand-IsUsable :
      IsUsable (capability_state stand mode safety locomotion)
      ↔ (IsCalm safety × (elem mode (mode_maintenance ∷ mode_shutdown ∷ []) ≡ false))
  unfolding capability_state
  stand-IsUsable = ground arith

  stop-IsUsable :
      IsUsable (capability_state stop mode safety locomotion) ↔ ((mode == mode_shutdown) ≡ false)
  unfolding capability_state
  stop-IsUsable = ground arith

  request_teleop-IsUsable :
      IsUsable (capability_state request_teleop mode safety locomotion)
      ↔ ((mode == mode_shutdown) ≡ false)
  unfolding capability_state
  request_teleop-IsUsable = ground arith

  -- In one of the six safety states: walking and turning are usable exactly under OK or WARN in teleop,
  -- autonomy and AI policy; recovering posture exactly under OK, WARN or MRM in maintenance, inactive
  -- and teleop; standing exactly under OK or WARN outside maintenance and shutdown; stopping and the
  -- request for teleop exactly outside shutdown.
  pub capability_state-Offers : Offers mode safety locomotion
  capability_state-Offers = record {
    walking = walk_velocity-IsUsable;
    turning = turn_in_place-IsUsable;
    recovery = recover_posture-IsUsable;
    standing = stand-IsUsable;
    stopping = stop-IsUsable;
    teleop = request_teleop-IsUsable;
  }
