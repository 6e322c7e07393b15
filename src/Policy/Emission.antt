-- ===== src/Policy/Emission.antt =====
-- When the two providers of candidate commands publish one.
use huma_ware.Common.{
  ℕ, ◌≡◌, ◌↔◌, inl, inr, Bool, true, false, none, [], ◌∷◌, arith, length, elem, Bool-cases,
}
use huma_ware.Ros.Float.{FloatOps}
use huma_ware.Ros.Time.{Time}
use huma_ware.Msgs.ModeState.{mode_ai_policy}
use huma_ware.Msgs.SafetyState.{state_ok, state_warn}
use huma_ware.Policy.Plan.{PlanProgress, advanced, current_command, advance_progress}
use huma_ware.Policy.Turns.{IsWithin, IsResting}
use huma_ware.Policy.Advance.{advance_progress-Ends_once}
use huma_ware.Policy.Advancing.{IsAdvance, advance_progress-IsAdvance}
use huma_ware.Policy.Scripted
use huma_ware.Policy.Scripted.{
  Provider, Tick, returned, command_message, emitted, after_advance, on_mode, on_safety, tick,
}
use huma_ware.Policy.Stub

-- The provider is enabled, a safety state was seen and is OK or WARN, and the mode is AI policy.
pub record IsGateOpen (on saw : Bool) (state active : ℕ) : Type 0 where
  pub enabled : on ≡ true
  pub seen : saw ≡ true
  pub safety : elem state (state_ok ∷ state_warn ∷ []) ≡ true
  pub mode : active ≡ mode_ai_policy

should_emit_candidate-IsGateOpen :
    (enabled seen : Bool) (safety mode : ℕ)
    → ((Scripted.should_emit_candidate enabled mode safety seen).0 ≡ true)
      ↔ IsGateOpen enabled seen safety mode
unfolding Scripted.should_emit_candidate
should_emit_candidate-IsGateOpen enabled seen safety mode = ground arith

-- The stub and the scripted provider decide alike, with the same reason; and they allow a candidate
-- exactly where the provider is enabled, a safety state was seen and is OK or WARN, and the mode is AI
-- policy.
should_emit_candidate-agree :
    (enabled seen : Bool) (safety mode : ℕ)
    → (Stub.should_emit_candidate enabled mode safety seen
        ≡ Scripted.should_emit_candidate enabled mode safety seen)
      × (((Stub.should_emit_candidate enabled mode safety seen).0 ≡ true)
          ↔ IsGateOpen enabled seen safety mode)
unfolding Scripted.should_emit_candidate Stub.should_emit_candidate
should_emit_candidate-agree enabled seen safety mode = ground arith

module _ {F : Type 0} ⦃o : FloatOps F⦄ where
  -- The gate of the scripted provider, by its state.
  abbrev pub IsOpen : Scripted.Params → Provider F → Type 0
  IsOpen p s = IsGateOpen p.enabled s.safety_seen s.safety_state s.active_mode

  -- What a tick does from an open gate: it advances the plan by the period, and publishes the waypoint
  -- it rests at.
  abbrev pub Plays : ℕ → Scripted.Params → Time → Provider F → Type 0
  Plays fuel p now s =
      (q : PlanProgress F) × (tick fuel p now s
        ≡ returned (record s { progress = q }) (emitted p now (current_command q s.plan)))
      × IsAdvance s.plan s.progress s.period q
      × IsResting s.plan q

  tick_closed :
      (fuel : ℕ) (p : Scripted.Params) (now : Time) (s : Provider F)
      → (Scripted.should_emit_candidate p.enabled s.active_mode s.safety_state s.safety_seen).0
        ≡ false
      → tick fuel p now s ≡ returned s none
  unfolding tick
  tick_closed fuel p now s h = rw h

  tick_open :
      (fuel : ℕ) (p : Scripted.Params) (now : Time) (s : Provider F) (q : PlanProgress F)
      → (Scripted.should_emit_candidate p.enabled s.active_mode s.safety_state s.safety_seen).0
        ≡ true
      → advance_progress fuel s.progress s.plan s.period ≡ advanced q
      → tick fuel p now s
        ≡ returned (record s { progress = q }) (emitted p now (current_command q s.plan))
  unfolding tick after_advance
  tick_open fuel p now s q h e = rw (h, e)

  -- With a plan that does not loop, a period that is not negative and a position within the plan, a
  -- tick returns: from an open gate it advances the plan by the period and publishes the waypoint that
  -- it rests at, if it is not at the end; from a closed one it changes and publishes nothing.
  pub tick-Plays :
      (p : Scripted.Params) (now : Time) (s : Provider F)
      → s.plan.loop ≡ false
      → o.lt s.period o.float_zero ≡ false
      → IsWithin s.plan s.progress
      → (IsOpen p s → Plays (length s.plan.waypoints) p now s)
        × (¬ IsOpen p s → tick (length s.plan.waypoints) p now s ≡ returned s none)
  tick-Plays p now s n h v =
      let (q, e, r) = advance_progress-Ends_once s.plan s.progress s.period n h v in
      let allowed =
        should_emit_candidate-IsGateOpen p.enabled s.safety_seen s.safety_state s.active_mode in
      (
        λ g. (
          q,
          tick_open (length s.plan.waypoints) p now s q (allowed.1 g) e,
          advance_progress-IsAdvance s.plan (length s.plan.waypoints) s.progress s.period q h v e,
          r,
        ),
        λ c.
            elim (Bool-cases
              (Scripted.should_emit_candidate p.enabled s.active_mode s.safety_state
                s.safety_seen).0) [
                  | inl y ↦ absurd (c (allowed.0 y))
                  | inr y ↦ tick_closed (length s.plan.waypoints) p now s y
                ],
      )
