-- ===== src/Locomotion/Motion.antt =====
-- When the adapter of mock_locomotion_adapter_node.py moves, over every sequence of callbacks.
use huma_ware.Common.{
  ℕ, String, ◌≡◌, refl, ◌≢◌, ◌↔◌, true, false, ◌&&◌, none, some, List, [], ◌∷◌, arith, elem,
}
use huma_ware.Ros.Float.{FloatOps}
use huma_ware.Ros.Time.{Time}
use huma_ware.Ros.Twist.{TwistStamped}
use huma_ware.Msgs.ModeState.{
  mode_inactive, mode_maintenance, mode_teleop, mode_autonomy, mode_ai_policy, mode_fault,
  mode_shutdown,
}
use huma_ware.Msgs.SafetyState.{
  state_unknown, state_ok, state_warn, state_fault, state_estop, state_mrm,
}
use huma_ware.Msgs.LocomotionState
use huma_ware.Locomotion.Node.{
  Params, Locomotion, init, halted, begin_stop, settle_stop_if_ready, is_stale, on_mode_state,
  on_safety_state, on_approved_cmd, tick,
}

-- The callbacks, with the parameters and the clock that they read.
pub data Event (F : Type 0) : Type 0 where
  mode_state safety_state : ℕ → Event F
  approved_cmd : Params F → Time → TwistStamped F → Event F
  timer : Params F → Time → Event F

module _ {F : Type 0} ⦃o : FloatOps F⦄ where
  abbrev pub IsMoving : Locomotion F → Type 0
  IsMoving s =
      elem s.state (LocomotionState.state_walking ∷ LocomotionState.state_turning ∷ []) ≡ true

  abbrev pub HasZeroVelocity : Locomotion F → Type 0
  HasZeroVelocity s =
      (s.linear_velocity_mps ≡ o.float_zero) × (s.angular_velocity_radps ≡ o.float_zero)

  pub record IsConsistent (s : Locomotion F) : Type 0 where
    pub still : ¬ IsMoving s → HasZeroVelocity s
    pub silent : s.last_command_time ≡ none → HasZeroVelocity s
    pub stopping : s.state ≡ LocomotionState.state_stopping → s.stop_started_at ≢ none

  unfoldable pub step : Event F → Locomotion F → Locomotion F
  unfolding on_mode_state on_safety_state
  step (mode_state mode) s = on_mode_state mode s
  step (safety_state state) s = on_safety_state state s
  step (approved_cmd p now msg) s = on_approved_cmd p now msg s
  step (timer p now) s = (tick p now s).0

  unfoldable pub run : List (Event F) → Locomotion F → Locomotion F
  run [] s = s
  run (e ∷ es) s = run es (step e s)

  settle-IsConsistent :
      (p : Params F) (now : Time) (s : Locomotion F)
      → IsConsistent s
      → IsConsistent (settle_stop_if_ready p now s)
  unfolding settle_stop_if_ready
  settle-IsConsistent p now s h = ground arith

  begin_stop-IsConsistent :
      (p : Params F) (now : Time) (reason : String) (s : Locomotion F)
      → HasZeroVelocity s
      → IsConsistent (begin_stop p now reason s)
  unfolding begin_stop
  begin_stop-IsConsistent p now reason s h = ground arith

  approved-IsConsistent :
      (p : Params F) (now : Time) (msg : TwistStamped F) (s : Locomotion F)
      → IsConsistent s
      → IsConsistent (on_approved_cmd p now msg s)
  unfolding on_approved_cmd
  approved-IsConsistent p now msg s h =
      let heard = halted (record s { last_command_time = some now }) in
      ground (
        arith,
        begin_stop-IsConsistent p now "approved_stop_command" heard (refl, refl),
        begin_stop-IsConsistent p now "runtime_blocks_output" heard (refl, refl),
      )

  tick-IsConsistent :
      (p : Params F) (now : Time) (s : Locomotion F)
      → IsConsistent s
      → IsConsistent (tick p now s).0
  unfolding tick
  tick-IsConsistent p now s h = ground (
    arith,
    begin_stop-IsConsistent p now "mode_blocks_locomotion" (halted s) (refl, refl),
    begin_stop-IsConsistent p now "safety_blocks_locomotion" (halted s) (refl, refl),
    begin_stop-IsConsistent p now "command_timeout" (halted s) (refl, refl),
    settle-IsConsistent p now s h,
  )

  step-IsConsistent : (e : Event F) (s : Locomotion F) → IsConsistent s → IsConsistent (step e s)
  unfolding step
  step-IsConsistent (mode_state mode) s h = record {
    still = h.still;
    silent = h.silent;
    stopping = h.stopping;
  }
  step-IsConsistent (safety_state state) s h = record {
    still = h.still;
    silent = h.silent;
    stopping = h.stopping;
  }
  step-IsConsistent (approved_cmd p now msg) s h = approved-IsConsistent p now msg s h
  step-IsConsistent (timer p now) s h = tick-IsConsistent p now s h

  run-IsConsistent :
      (es : List (Event F)) (s : Locomotion F) → IsConsistent s → IsConsistent (run es s)
  unfolding run
  run-IsConsistent [] s h = h
  run-IsConsistent (e ∷ es) s h = run-IsConsistent es (step e s) (step-IsConsistent e s h)

  -- After any callbacks: velocities are zero unless the robot walks or turns, and before the first
  -- command; a robot that is stopping has a time at which it started to.
  pub run-init-IsConsistent : (es : List (Event F)) → IsConsistent (run es init)
  run-init-IsConsistent es =
      run-IsConsistent es init
        (record { still = λ m. (refl, refl); silent = λ e. (refl, refl); stopping = λ e. cc })

  -- What a tick asks for before it leaves the robot moving.
  pub record MayMove (p : Params F) (now : Time) (s : Locomotion F) : Type 0 where
    pub mode :
        elem s.active_mode (mode_inactive ∷ mode_maintenance ∷ mode_fault ∷ mode_shutdown ∷ [])
        ≡ false
    pub safety :
        elem s.safety_state (state_unknown ∷ state_fault ∷ state_estop ∷ state_mrm ∷ []) ≡ false
    pub heard : s.last_command_time ≢ none
    pub recent : is_stale now s.last_command_time p.command_timeout ≡ false

  -- A tick that leaves the robot walking or turning found it so, with every condition to move met, and
  -- changed nothing.
  pub tick-MayMove :
      (p : Params F) (now : Time) (s : Locomotion F)
      → IsMoving (tick p now s).0
      → MayMove p now s × IsMoving s × ((tick p now s).0 ≡ s)
  unfolding tick begin_stop
  tick-MayMove p now s h = ground arith

  -- From a consistent state, a tick that finds a condition to move not met leaves both velocities zero.
  tick-halts :
      (p : Params F) (now : Time) (s : Locomotion F)
      → IsConsistent s
      → ¬ MayMove p now s
      → HasZeroVelocity (tick p now s).0
  unfolding tick begin_stop
  tick-halts p now s h n = ground arith

  -- After an approved command the robot walks or turns exactly when the mode is an active one, the
  -- safety state is OK or WARN, and a velocity of the command exceeds the threshold.
  on_approved_cmd-moves :
      (p : Params F) (now : Time) (msg : TwistStamped F) (s : Locomotion F)
      → IsMoving (on_approved_cmd p now msg s) ↔ (
          (elem s.active_mode (mode_teleop ∷ mode_autonomy ∷ mode_ai_policy ∷ []) ≡ true)
          × (elem s.safety_state (state_ok ∷ state_warn ∷ []) ≡ true)
          × ((o.le (o.abs msg.twist.linear.x) p.walk_epsilon
                && o.le (o.abs msg.twist.angular.z) p.walk_epsilon)
              ≡ false))
  unfolding on_approved_cmd begin_stop
  on_approved_cmd-moves p now msg s = ground arith
