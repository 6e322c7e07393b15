-- ===== src/Locomotion/Constraints.antt =====
-- What the state message of mock_locomotion_adapter_node.py explains while the output is blocked.
use huma_ware.Common.{String, ◌≡◌, true, false, [], ◌∷◌, arith, elem, is_nonempty}
use huma_ware.Ros.Float.{FloatOps}
use huma_ware.Ros.Time.{Time}
use huma_ware.Msgs.ModeState.{
  mode_inactive, mode_maintenance, mode_teleop, mode_autonomy, mode_ai_policy, mode_fault,
  mode_shutdown,
}
use huma_ware.Msgs.SafetyState.{
  state_unknown, state_ok, state_warn, state_fault, state_estop, state_mrm,
}
use huma_ware.Locomotion.Node.{
  Params, Locomotion, is_output_blocked, settle_stop_if_ready, begin_stop, halted, tick,
}

module _ {F : Type 0} where
  -- The codes of the seven modes, and of the six safety states.
  abbrev pub IsKnown : Locomotion F → Type 0
  IsKnown s =
      (elem s.active_mode (
          mode_inactive ∷ mode_maintenance ∷ mode_teleop ∷ mode_autonomy ∷ mode_ai_policy
          ∷ mode_fault ∷ mode_shutdown ∷ [])
        ≡ true)
      × (elem s.safety_state
            (state_unknown ∷ state_ok ∷ state_warn ∷ state_fault ∷ state_estop ∷ state_mrm ∷ [])
          ≡ true)

  -- While the runtime blocks the output, the state names a constraint.
  pub record IsExplained (s : Locomotion F) : Type 0 where
    pub named : is_output_blocked s ≡ true → is_nonempty s.constraints ≡ true

module _ {F : Type 0} (p : Params F) (now : Time) where
  begin_stop-IsExplained :
      (reason : String) (s : Locomotion F) → IsExplained (begin_stop p now reason s)
  unfolding begin_stop is_output_blocked
  begin_stop-IsExplained reason s = ground arith

  settle_stop_if_ready-IsExplained :
      (s : Locomotion F) → is_output_blocked s ≡ false → IsExplained (settle_stop_if_ready p now s)
  unfolding settle_stop_if_ready is_output_blocked
  settle_stop_if_ready-IsExplained s h = ground arith

module _ {F : Type 0} ⦃o : FloatOps F⦄ (p : Params F) (now : Time) where
  unblocked :
      (s : Locomotion F)
      → IsKnown s
      → elem s.active_mode (mode_inactive ∷ mode_maintenance ∷ []) ≡ false
      → elem s.active_mode (mode_fault ∷ mode_shutdown ∷ []) ≡ false
      → elem s.safety_state (state_unknown ∷ state_fault ∷ state_estop ∷ state_mrm ∷ []) ≡ false
      → is_output_blocked s ≡ false
  unfolding is_output_blocked
  unblocked s k a b c = ground arith

  -- In one of the seven modes and the six safety states, a tick leaves a constraint named whenever
  -- the runtime blocks the output.
  pub tick-IsExplained : (s : Locomotion F) → IsKnown s → IsExplained (tick p now s).0
  unfolding tick
  tick-IsExplained s k = ground (
    arith,
    begin_stop-IsExplained p now "mode_blocks_locomotion" (halted s),
    begin_stop-IsExplained p now "safety_blocks_locomotion" (halted s),
    begin_stop-IsExplained p now "command_timeout" (halted s),
    unblocked s k,
    settle_stop_if_ready-IsExplained p now s,
  )
