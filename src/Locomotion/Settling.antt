-- ===== src/Locomotion/Settling.antt =====
-- How a stop of mock_locomotion_adapter_node.py ends, over the callbacks that follow it.
use huma_ware.Common.{String, ◌≡◌, ◌≢◌, ◌⊎◌, true, false, some, List, [], ◌∷◌, arith, elem, All}
use huma_ware.Common.Int.{ltb_ℤ}
use huma_ware.Ros.Float.{FloatOps}
use huma_ware.Ros.Time.{Time, since}
use huma_ware.Ros.Twist.{TwistStamped}
use huma_ware.Msgs.ModeState.{mode_inactive, mode_maintenance}
use huma_ware.Msgs.LocomotionState.{state_inactive, state_standing, state_stopping}
use huma_ware.Locomotion.Node.{
  Params, Locomotion, on_safety_state, on_approved_cmd, settle_stop_if_ready, begin_stop, halted,
  tick,
}
use huma_ware.Locomotion.Motion.{Event, mode_state, safety_state, approved_cmd, timer, step, run}

module _ {F : Type 0} ⦃o : FloatOps F⦄ where
  -- A callback that asks for no motion and changes no mode: a safety state, a timer, or a command of
  -- which neither velocity exceeds the threshold.
  abbrev pub IsQuiet : Event F → Type 0
  IsQuiet (mode_state mode) = ⊥
  IsQuiet (safety_state state) = Unit
  IsQuiet (approved_cmd p now msg) =
      (o.le (o.abs msg.twist.linear.x) p.walk_epsilon ≡ true)
      × (o.le (o.abs msg.twist.angular.z) p.walk_epsilon ≡ true)
  IsQuiet (timer p now) = Unit

  -- The robot stops, or has stopped, since a time; or it is inactive in a mode that keeps it so.
  abbrev IsHeld : Time → Locomotion F → Type 0
  IsHeld t s =
      ((elem s.state (state_stopping ∷ state_standing ∷ []) ≡ true) × (s.stop_started_at ≡ some t))
      ⊎ ((s.state ≡ state_inactive)
          × (elem s.active_mode (mode_inactive ∷ mode_maintenance ∷ []) ≡ true))

  settle-IsHeld :
      (p : Params F) (now t : Time) (s : Locomotion F)
      → IsHeld t s
      → IsHeld t (settle_stop_if_ready p now s)
  unfolding settle_stop_if_ready
  settle-IsHeld p now t s h = ground arith

  begin_stop-IsHeld :
      (p : Params F) (now t : Time) (reason : String) (s : Locomotion F)
      → IsHeld t s
      → IsHeld t (begin_stop p now reason s)
  unfolding begin_stop
  begin_stop-IsHeld p now t reason s h = ground arith

  approved-IsHeld :
      (p : Params F) (now t : Time) (msg : TwistStamped F) (s : Locomotion F)
      → IsQuiet (approved_cmd p now msg)
      → IsHeld t s
      → IsHeld t (on_approved_cmd p now msg s)
  unfolding on_approved_cmd
  approved-IsHeld p now t msg s q h =
      let heard = halted (record s { last_command_time = some now }) in
      ground (arith, begin_stop-IsHeld p now t "approved_stop_command" heard h)

  tick-IsHeld :
      (p : Params F) (now t : Time) (s : Locomotion F) → IsHeld t s → IsHeld t (tick p now s).0
  unfolding tick
  tick-IsHeld p now t s h = ground (
    arith,
    begin_stop-IsHeld p now t "mode_blocks_locomotion" (halted s) h,
    begin_stop-IsHeld p now t "safety_blocks_locomotion" (halted s) h,
    begin_stop-IsHeld p now t "command_timeout" (halted s) h,
    settle-IsHeld p now t s h,
  )

  step-IsHeld :
      (t : Time) (e : Event F) (s : Locomotion F) → IsQuiet e → IsHeld t s → IsHeld t (step e s)
  unfolding step on_safety_state
  step-IsHeld t (mode_state mode) s q h = absurd q
  step-IsHeld t (safety_state state) s q h = h
  step-IsHeld t (approved_cmd p now msg) s q h = approved-IsHeld p now t msg s q h
  step-IsHeld t (timer p now) s q h = tick-IsHeld p now t s h

  run-IsHeld :
      (t : Time) (es : List (Event F)) (s : Locomotion F)
      → All IsQuiet es
      → IsHeld t s
      → IsHeld t (run es s)
  unfolding run
  run-IsHeld t [] s q h = h
  run-IsHeld t (e ∷ es) s (q, qs) h = run-IsHeld t es (step e s) qs (step-IsHeld t e s q h)

  settle-moves_on :
      (p : Params F) (now t : Time) (s : Locomotion F)
      → ltb_ℤ (since now t) p.stop_settle_time ≡ false
      → IsHeld t s
      → (settle_stop_if_ready p now s).state ≢ state_stopping
  unfolding settle_stop_if_ready
  settle-moves_on p now t s over h = ground arith

  begin_stop-moves_on :
      (p : Params F) (now t : Time) (reason : String) (s : Locomotion F)
      → ltb_ℤ (since now t) p.stop_settle_time ≡ false
      → IsHeld t s
      → (begin_stop p now reason s).state ≢ state_stopping
  unfolding begin_stop
  begin_stop-moves_on p now t reason s over h = ground arith

  tick-moves_on :
      (p : Params F) (now t : Time) (s : Locomotion F)
      → ltb_ℤ (since now t) p.stop_settle_time ≡ false
      → IsHeld t s
      → (tick p now s).0.state ≢ state_stopping
  unfolding tick
  tick-moves_on p now t s over h = ground (
    arith,
    begin_stop-moves_on p now t "mode_blocks_locomotion" (halted s) over h,
    begin_stop-moves_on p now t "safety_blocks_locomotion" (halted s) over h,
    begin_stop-moves_on p now t "command_timeout" (halted s) over h,
    settle-moves_on p now t s over h,
  )

  -- From a robot that stops since `t`, and after any timers, safety states and commands of which
  -- neither velocity exceeds the threshold: a tick at which the settle time since `t` is over leaves the
  -- robot no longer stopping.
  pub run-settles :
      (p : Params F) (now t : Time) (es : List (Event F)) (s : Locomotion F)
      → s.state ≡ state_stopping
      → s.stop_started_at ≡ some t
      → All IsQuiet es
      → ltb_ℤ (since now t) p.stop_settle_time ≡ false
      → (tick p now (run es s)).0.state ≢ state_stopping
  run-settles p now t es s h started q over =
      tick-moves_on p now t (run es s) over (run-IsHeld t es s q (ground arith))
