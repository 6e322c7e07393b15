-- ===== src/Teleop/Bounds.antt =====
-- That the commands of keyboard_teleop_node.py stay within the velocity limits.
use huma_ware.Common.{
  String, ◌≡◌, true, Option, none, some, List, [], ◌∷◌, arith, All, elem_str, not, if-elim,
}
use huma_ware.Ros.Float.{FloatOps, IsFloat, clamp-within}
use huma_ware.Ros.Time.{Time}
use huma_ware.Ros.Twist.{TwistStamped}
use huma_ware.Teleop.Keymap.{
  TeleopVelocity, KeyParams, help_keys, is_motion_key, no_velocity, clamped, apply_key,
}
use huma_ware.Teleop.Node.{
  Params, KeyboardTeleop, init, is_zero, is_timed_out, after_timeout, on_motion_key, on_key,
  publish_velocity, publish_tick,
}

-- A key that was read, and a tick of the timer, with the time.
pub data Event : Type 0 where
  read_key : Time → String → Event
  timer : Time → Event

module _ {F : Type 0} ⦃o : FloatOps F⦄ where
  pub record IsWithin (p : KeyParams F) (v : TeleopVelocity F) : Type 0 where
    pub linear_low : o.le (o.neg p.max_linear_velocity_mps) v.linear_x_mps ≡ true
    pub linear_high : o.le v.linear_x_mps p.max_linear_velocity_mps ≡ true
    pub angular_low : o.le (o.neg p.max_angular_velocity_radps) v.angular_z_radps ≡ true
    pub angular_high : o.le v.angular_z_radps p.max_angular_velocity_radps ≡ true

  unfoldable pub step :
      Params F → Event → KeyboardTeleop F → KeyboardTeleop F × Option (TwistStamped F)
  step p (read_key now text) s = on_key p now text s
  step p (timer now) s = let r = publish_tick p now s in (r.0, r.2)

  -- The commands that a run publishes, in order.
  unfoldable pub commands :
      Params F → List Event → KeyboardTeleop F → List (Option (TwistStamped F))
  unfolding step
  commands p [] s = []
  commands p (e ∷ es) s = (step p e s).1 ∷ commands p es (step p e s).0

  -- A published command is within the limits, if there is one.
  abbrev pub Fits : KeyParams F → Option (TwistStamped F) → Type 0
  Fits p none = Unit
  Fits p (some m) =
      IsWithin p (record { linear_x_mps = m.twist.linear.x; angular_z_radps = m.twist.angular.z })

module _ {F : Type 0} ⦃o : FloatOps F⦄ (l : IsFloat o) (p : Params F)
    (limits : IsWithin p.keys no_velocity) where
  clamped-IsWithin : (linear angular : F) → IsWithin p.keys (clamped p.keys linear angular)
  unfolding clamped
  clamped-IsWithin linear angular = ground (
    arith,
    l.le_trans (o.neg p.keys.max_linear_velocity_mps) o.float_zero p.keys.max_linear_velocity_mps
        limits.linear_low limits.linear_high,
    l.le_trans (o.neg p.keys.max_angular_velocity_radps) o.float_zero
        p.keys.max_angular_velocity_radps limits.angular_low limits.angular_high,
    clamp-within l linear (o.neg p.keys.max_linear_velocity_mps) p.keys.max_linear_velocity_mps,
    clamp-within l angular (o.neg p.keys.max_angular_velocity_radps)
        p.keys.max_angular_velocity_radps,
  )

  pub apply_key-IsWithin :
      (text : String) (v : TeleopVelocity F) → IsWithin p.keys (apply_key p.keys text v)
  unfolding apply_key
  apply_key-IsWithin text v = ground (
    arith,
    clamped-IsWithin (o.add v.linear_x_mps p.keys.linear_step_mps) v.angular_z_radps,
    clamped-IsWithin (o.sub v.linear_x_mps p.keys.linear_step_mps) v.angular_z_radps,
    clamped-IsWithin v.linear_x_mps (o.add v.angular_z_radps p.keys.angular_step_radps),
    clamped-IsWithin v.linear_x_mps (o.sub v.angular_z_radps p.keys.angular_step_radps),
    clamped-IsWithin v.linear_x_mps v.angular_z_radps,
    limits,
  )

  -- The velocity after a callback and the command of the callback are within the limits.
  abbrev AreWithin : KeyboardTeleop F × Option (TwistStamped F) → Type 0
  AreWithin r = IsWithin p.keys (r.0).velocity × Fits p.keys (r.1)

  on_motion_key-AreWithin :
      (now : Time) (text : String) (s : KeyboardTeleop F)
      → IsWithin p.keys s.velocity
      → AreWithin (on_motion_key p now text s)
  unfolding on_motion_key
  on_motion_key-AreWithin now text s h =
      let v = apply_key-IsWithin text s.velocity in
      if-elim AreWithin _ _ (is_zero (apply_key p.keys text s.velocity)) (λ z. (v, v))
        (λ z. (v, tt))

  on_key-AreWithin :
      (now : Time) (text : String) (s : KeyboardTeleop F)
      → IsWithin p.keys s.velocity
      → AreWithin (on_key p now text s)
  unfolding on_key
  on_key-AreWithin now text s h =
      if-elim AreWithin _ _ (elem_str text help_keys) (λ a. (h, tt))
        (λ a.
          if-elim AreWithin _ _ (not (is_motion_key text)) (λ b. (h, tt))
            (λ b. on_motion_key-AreWithin now text s h))

  publish_velocity-AreWithin :
      (now : Time) (s : KeyboardTeleop F)
      → IsWithin p.keys s.velocity
      → AreWithin (publish_velocity p now s)
  unfolding publish_velocity
  publish_velocity-AreWithin now s h =
      if-elim AreWithin _ _ (is_zero s.velocity)
        (λ z. if-elim AreWithin _ _ (not s.stop_sent) (λ a. (h, h)) (λ a. (h, tt))) (λ z. (h, h))

  timed-IsWithin :
      (now : Time) (s : KeyboardTeleop F)
      → IsWithin p.keys s.velocity
      → IsWithin p.keys (after_timeout p now s).velocity
  timed-IsWithin now s h =
      if-elim (λ (v : KeyboardTeleop F). IsWithin p.keys v.velocity) _ _
        (is_timed_out now s.last_key_at p.key_timeout) (λ t. limits) (λ t. h)

  step-IsWithin :
      (e : Event) (s : KeyboardTeleop F) → IsWithin p.keys s.velocity → AreWithin (step p e s)
  unfolding step publish_tick
  step-IsWithin (read_key now text) s h = on_key-AreWithin now text s h
  step-IsWithin (timer now) s h =
      publish_velocity-AreWithin now (after_timeout p now s) (timed-IsWithin now s h)

  commands-Fits :
      (es : List Event) (s : KeyboardTeleop F)
      → IsWithin p.keys s.velocity
      → All (Fits p.keys) (commands p es s)
  unfolding commands
  commands-Fits [] s h = tt
  commands-Fits (e ∷ es) s h =
      let (within, fits) = step-IsWithin e s h in (fits, commands-Fits es (step p e s).0 within)

  -- With limits that enclose zero, every command published in a run, whatever keys are read and
  -- however the timer falls, is within the velocity limits, also when a step is NaN.
  commands-init-Fits : (es : List Event) → All (Fits p.keys) (commands p es init)
  commands-init-Fits es = commands-Fits es init limits
