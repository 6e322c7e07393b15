-- ===== src/CommandArbiter/Limits.antt =====
-- The velocity limits of command_arbiter_node.py, on every command that a tick publishes.
use huma_ware.Common.{String, ◌≡◌, refl, true, Option, none, some, inl, inr, Bool-cases}
use huma_ware.Ros.Float.{FloatOps, IsFloat, IsNan, clamp-within, clamp-nan}
use huma_ware.Ros.Time.{Time}
use huma_ware.Ros.Twist.{Twist, TwistStamped, zero_twist}
use huma_ware.CommandArbiter.Select.{CandidateCommand, should_publish_stop, clamp}
use huma_ware.CommandArbiter.Node.{Params, CommandArbiter, emit, selection, tick, limit_command}

module _ {F : Type 0} ⦃o : FloatOps F⦄ where
  abbrev pub IsWithin : F → F → Type 0
  IsWithin limit v = (o.le (o.neg limit) v ≡ true) × (o.le v limit ≡ true)

  -- Planar motion inside the limits: nothing but x, y and the yaw rate may differ from zero.
  pub record IsLimited (p : Params F) (t : Twist F) : Type 0 where
    pub linear_x : IsWithin p.max_linear_velocity_mps t.linear.x
    pub linear_y : IsWithin p.max_linear_velocity_mps t.linear.y
    pub angular_z : IsWithin p.max_angular_velocity_radps t.angular.z
    pub linear_z : t.linear.z ≡ o.float_zero
    pub angular_x : t.angular.x ≡ o.float_zero
    pub angular_y : t.angular.y ≡ o.float_zero

  -- Limits that leave room for standing still.
  pub record IsSane (p : Params F) : Type 0 where
    pub linear : IsWithin p.max_linear_velocity_mps o.float_zero
    pub angular : IsWithin p.max_angular_velocity_radps o.float_zero

  abbrev pub OutputLimited : Params F → Option (TwistStamped F) → Type 0
  OutputLimited p none = Unit {0}
  OutputLimited p (some m) = IsLimited p m.twist

module _ {F : Type 0} ⦃o : FloatOps F⦄ (l : IsFloat o) (p : Params F) where
  clamp-IsWithin :
      (limit v : F) → IsWithin limit o.float_zero → IsWithin limit (clamp v (o.neg limit) limit)
  unfolding clamp
  clamp-IsWithin limit v h =
      clamp-within l v (o.neg limit) limit (l.le_trans (o.neg limit) o.float_zero limit h.0 h.1)

  limit-IsLimited :
      (msg : TwistStamped F) (now : Time) → IsSane p → IsLimited p (limit_command p msg now).twist
  unfolding limit_command
  limit-IsLimited msg now h = record {
    linear_x = clamp-IsWithin p.max_linear_velocity_mps msg.twist.linear.x h.linear;
    linear_y = clamp-IsWithin p.max_linear_velocity_mps msg.twist.linear.y h.linear;
    angular_z = clamp-IsWithin p.max_angular_velocity_radps msg.twist.angular.z h.angular;
    linear_z = refl;
    angular_x = refl;
    angular_y = refl;
  }

  zero-IsLimited : IsSane p → IsLimited p zero_twist
  zero-IsLimited h = record {
    linear_x = h.linear;
    linear_y = h.linear;
    angular_z = h.angular;
    linear_z = refl;
    angular_x = refl;
    angular_y = refl;
  }

  emit-limited :
      (now : Time) (a : CommandArbiter F) (c : Option (CandidateCommand F)) (reason : String)
      → IsSane p
      → OutputLimited p (emit p now a c reason).0
  unfolding emit
  emit-limited now a (some c) reason h = limit-IsLimited c.msg now h
  emit-limited now a none reason h =
      elim (Bool-cases (should_publish_stop reason p.publish_stop_on_block)) [
        | inl e ↦ rw e (zero-IsLimited h)
        | inr e ↦ rw e tt
      ]

  -- With limits that admit zero, whatever command a tick publishes, candidate or stop, is planar and
  -- has x, y and the yaw rate between minus the limit and the limit.
  pub tick-limited :
      (now : Time) (a : CommandArbiter F) → IsSane p → OutputLimited p (tick p now a).0
  unfolding tick
  tick-limited now a h = emit-limited now a (selection p now a).0 (selection p now a).1 h

  -- A candidate whose forward velocity is NaN is approved as the full forward speed.
  pub limit_command-nan :
      (msg : TwistStamped F) (now : Time)
      → IsNan msg.twist.linear.x
      → o.lt (o.neg p.max_linear_velocity_mps) p.max_linear_velocity_mps ≡ true
      → (limit_command p msg now).twist.linear.x ≡ p.max_linear_velocity_mps
  unfolding limit_command clamp
  limit_command-nan msg now n h = clamp-nan l _ _ _ n h
