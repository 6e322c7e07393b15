-- ===== src/Teleop/Interleavings.antt =====
-- What holds of keyboard_teleop_node.py however the steps of its two threads fall.
use huma_ware.Common.{String, ◌≡◌, true, not, none, some, List, [], ◌∷◌, All, elem_str, if-elim}
use huma_ware.Ros.Float.{FloatOps, IsFloat}
use huma_ware.Ros.Time.{Time}
use huma_ware.Ros.Twist.{TwistStamped}
use huma_ware.Teleop.Keymap.{TeleopVelocity, KeyParams, help_keys, is_motion_key, no_velocity}
use huma_ware.Teleop.Node.{Params, is_timed_out, is_zero}
use huma_ware.Teleop.Bounds.{IsWithin, Fits, apply_key-IsWithin}
use huma_ware.Teleop.Threads.{
  KeyThread, waiting, store_velocity, stamp_key, test_zero, read_linear, read_angular, send,
  mark_sent, TickThread, sleeping, test_key, test_age, reset_velocity, test_moving, test_sent,
  tick_linear, tick_angular, tick_send, tick_mark, Threads, Turn, press, key_turn, fire, tick_turn,
  initial, begin_key, step_key, begin_tick, step_tick, turn, interleave,
}

module _ {F : Type 0} ⦃o : FloatOps F⦄ where
  pub record IsLinear (p : KeyParams F) (x : F) : Type 0 where
    pub low : o.le (o.neg p.max_linear_velocity_mps) x ≡ true
    pub high : o.le x p.max_linear_velocity_mps ≡ true

  -- What a thread holds between two of its steps is within the limits.
  abbrev HeldKey : KeyParams F → KeyThread F → Type 0
  HeldKey p (store_velocity v) = IsWithin p v
  HeldKey p (read_angular now x) = IsLinear p x
  HeldKey p (send now v) = IsWithin p v
  HeldKey p _ = Unit

  abbrev HeldTick : KeyParams F → TickThread F → Type 0
  HeldTick p (tick_angular now mark x) = IsLinear p x
  HeldTick p (tick_send now mark v) = IsWithin p v
  HeldTick p _ = Unit

  -- The command is within the limits.
  abbrev pub IsFit : KeyParams F → TwistStamped F → Type 0
  IsFit p m = Fits p (some m)

  record IsSafe (p : KeyParams F) (s : Threads F) : Type 0 where
    velocity : IsWithin p s.velocity
    key : HeldKey p s.key
    tick : HeldTick p s.tick
    published : All (IsFit p) s.published

  with_key :
      (p : KeyParams F) (s : Threads F) (k : KeyThread F)
      → IsSafe p s
      → HeldKey p k
      → IsSafe p (record s { key = k })
  with_key p s k h held = record {
    velocity = h.velocity;
    key = held;
    tick = h.tick;
    published = h.published;
  }

  with_tick :
      (p : KeyParams F) (s : Threads F) (t : TickThread F)
      → IsSafe p s
      → HeldTick p t
      → IsSafe p (record s { tick = t })
  with_tick p s t h held = record {
    velocity = h.velocity;
    key = h.key;
    tick = held;
    published = h.published;
  }

  linear : (p : KeyParams F) (v : TeleopVelocity F) → IsWithin p v → IsLinear p v.linear_x_mps
  linear p v h = record { low = h.linear_low; high = h.linear_high }

  -- A velocity that was read in two steps.
  mixed :
      (p : KeyParams F) (x : F) (v : TeleopVelocity F)
      → IsLinear p x
      → IsWithin p v
      → IsWithin p (record { linear_x_mps = x; angular_z_radps = v.angular_z_radps })
  mixed p x v a h = record {
    linear_low = a.low;
    linear_high = a.high;
    angular_low = h.angular_low;
    angular_high = h.angular_high;
  }

module _ {F : Type 0} ⦃o : FloatOps F⦄ (l : IsFloat o) (p : Params F)
    (limits : IsWithin p.keys no_velocity) where
  begin_key-IsSafe :
      (text : String) (k : KeyThread F) (s : Threads F)
      → IsSafe p.keys s
      → IsSafe p.keys (begin_key p text k s)
  unfolding begin_key
  begin_key-IsSafe text waiting s h =
      if-elim (IsSafe p.keys) _ _ (elem_str text help_keys) (λ a. h)
        (λ a.
          if-elim (IsSafe p.keys) _ _ (not (is_motion_key text)) (λ b. h)
            (λ b. with_key p.keys s _ h (apply_key-IsWithin l p limits text s.velocity)))
  begin_key-IsSafe text (store_velocity v) s h = h
  begin_key-IsSafe text stamp_key s h = h
  begin_key-IsSafe text (test_zero x) s h = h
  begin_key-IsSafe text (read_linear x) s h = h
  begin_key-IsSafe text (read_angular x x') s h = h
  begin_key-IsSafe text (send x v) s h = h
  begin_key-IsSafe text (mark_sent x) s h = h

  step_key-IsSafe :
      (now : Time) (k : KeyThread F) (s : Threads F)
      → IsSafe p.keys s
      → HeldKey p.keys k
      → IsSafe p.keys (step_key p now k s)
  unfolding step_key
  step_key-IsSafe now waiting s h k = h
  step_key-IsSafe now (store_velocity v) s h k = record {
    velocity = k;
    key = tt;
    tick = h.tick;
    published = h.published;
  }
  step_key-IsSafe now stamp_key s h k = record {
    velocity = h.velocity;
    key = tt;
    tick = h.tick;
    published = h.published;
  }
  step_key-IsSafe now (test_zero x) s h k =
      with_key p.keys s _ h (if-elim (HeldKey p.keys) _ _ (is_zero s.velocity) (λ e. tt) (λ e. tt))
  step_key-IsSafe now (read_linear x) s h k =
      with_key p.keys s _ h (linear p.keys s.velocity h.velocity)
  step_key-IsSafe now (read_angular x x') s h k =
      with_key p.keys s _ h (mixed p.keys x' s.velocity k h.velocity)
  step_key-IsSafe now (send x v) s h k = record {
    velocity = h.velocity;
    key = tt;
    tick = h.tick;
    published = (k, h.published);
  }
  step_key-IsSafe now (mark_sent x) s h k = record {
    velocity = h.velocity;
    key = tt;
    tick = h.tick;
    published = h.published;
  }

  begin_tick-IsSafe :
      (now : Time) (t : TickThread F) (s : Threads F)
      → IsSafe p.keys s
      → IsSafe p.keys (begin_tick now t s)
  unfolding begin_tick
  begin_tick-IsSafe now sleeping s h = with_tick p.keys s (test_key now) h tt
  begin_tick-IsSafe now (test_key x) s h = h
  begin_tick-IsSafe now (test_age x) s h = h
  begin_tick-IsSafe now (reset_velocity x) s h = h
  begin_tick-IsSafe now (test_moving x) s h = h
  begin_tick-IsSafe now (test_sent x) s h = h
  begin_tick-IsSafe now (tick_linear x mark) s h = h
  begin_tick-IsSafe now (tick_angular x mark y) s h = h
  begin_tick-IsSafe now (tick_send x mark v) s h = h
  begin_tick-IsSafe now (tick_mark mark) s h = h

  step_tick-IsSafe :
      (t : TickThread F) (s : Threads F)
      → IsSafe p.keys s
      → HeldTick p.keys t
      → IsSafe p.keys (step_tick p t s)
  unfolding step_tick
  step_tick-IsSafe sleeping s h t = h
  step_tick-IsSafe (test_key now) s h t =
      with_tick p.keys s _ h
        (elim s.last_key_at
          as (λ o. HeldTick p.keys (elim o [ none ↦ test_moving now | some _ ↦ test_age now ])) [
            | none ↦ tt
            | some _ ↦ tt
          ])
  step_tick-IsSafe (test_age now) s h t = with_tick p.keys s _ h (
      if-elim (HeldTick p.keys) _ _ (is_timed_out now s.last_key_at p.key_timeout) (λ e. tt)
        (λ e. tt))
  step_tick-IsSafe (reset_velocity now) s h t = record {
    velocity = limits;
    key = h.key;
    tick = tt;
    published = h.published;
  }
  step_tick-IsSafe (test_moving now) s h t =
      with_tick p.keys s _ h
        (if-elim (HeldTick p.keys) _ _ (is_zero s.velocity) (λ e. tt) (λ e. tt))
  step_tick-IsSafe (test_sent now) s h t =
      with_tick p.keys s _ h (if-elim (HeldTick p.keys) _ _ (not s.stop_sent) (λ e. tt) (λ e. tt))
  step_tick-IsSafe (tick_linear now mark) s h t =
      with_tick p.keys s _ h (linear p.keys s.velocity h.velocity)
  step_tick-IsSafe (tick_angular now mark x) s h t =
      with_tick p.keys s _ h (mixed p.keys x s.velocity t h.velocity)
  step_tick-IsSafe (tick_send now mark v) s h t = record {
    velocity = h.velocity;
    key = h.key;
    tick = tt;
    published = (t, h.published);
  }
  step_tick-IsSafe (tick_mark mark) s h t = record {
    velocity = h.velocity;
    key = h.key;
    tick = tt;
    published = h.published;
  }

  turn-IsSafe : (t : Turn) (s : Threads F) → IsSafe p.keys s → IsSafe p.keys (turn p t s)
  unfolding turn
  turn-IsSafe (press text) s h = begin_key-IsSafe text s.key s h
  turn-IsSafe (key_turn now) s h = step_key-IsSafe now s.key s h h.key
  turn-IsSafe (fire now) s h = begin_tick-IsSafe now s.tick s h
  turn-IsSafe tick_turn s h = step_tick-IsSafe s.tick s h h.tick

  interleave-IsSafe :
      (ts : List Turn) (s : Threads F) → IsSafe p.keys s → IsSafe p.keys (interleave p ts s)
  unfolding interleave
  interleave-IsSafe [] s h = h
  interleave-IsSafe (t ∷ ts) s h = interleave-IsSafe ts (turn p t s) (turn-IsSafe t s h)

  -- With limits that enclose zero, every command that the node publishes is within the velocity
  -- limits, whatever keys are read and however the steps of its two threads fall, also where a
  -- command mixes the linear part of one velocity with the angular part of another.
  pub interleave-IsFit : (ts : List Turn) → All (IsFit p.keys) (interleave p ts initial).published
  interleave-IsFit ts =
      (interleave-IsSafe ts initial
        (record { velocity = limits; key = tt; tick = tt; published = tt })).published
