-- ===== src/Teleop/Threads.antt =====
-- keyboard_teleop_node.py, lines 85 to 145, at the grain of the two threads: one step reads or writes one
-- attribute, or publishes. The thread that reads keys runs _apply_key, the executor runs _publish_tick,
-- and their steps fall in any order. Only the thread of the keys writes _last_key_at.
use huma_ware.Common.{
  String, Bool, true, false, not, Option, none, some, List, [], ◌∷◌, elem_str, if◌then◌else◌,
}
use huma_ware.Ros.Float.{FloatOps}
use huma_ware.Ros.Time.{Time}
use huma_ware.Ros.Twist.{TwistStamped}
use huma_ware.Teleop.Keymap.{TeleopVelocity, help_keys, is_motion_key, no_velocity, apply_key}
use huma_ware.Teleop.Node.{Params, is_timed_out, is_zero, command}

-- Where the thread of the keys stands: before it, what it does next.
pub data KeyThread (F : Type 0) : Type 0 where
  waiting : KeyThread F
  store_velocity : TeleopVelocity F → KeyThread F
  stamp_key : KeyThread F
  test_zero : Time → KeyThread F
  read_linear : Time → KeyThread F
  read_angular : Time → F → KeyThread F
  send : Time → TeleopVelocity F → KeyThread F
  mark_sent : Bool → KeyThread F

-- Where the timer's callback stands. A `mark` is what it leaves in _stop_sent after publishing.
pub data TickThread (F : Type 0) : Type 0 where
  sleeping : TickThread F
  test_key : Time → TickThread F
  test_age : Time → TickThread F
  reset_velocity : Time → TickThread F
  test_moving : Time → TickThread F
  test_sent : Time → TickThread F
  tick_linear : Time → Bool → TickThread F
  tick_angular : Time → Bool → F → TickThread F
  tick_send : Time → Bool → TeleopVelocity F → TickThread F
  tick_mark : Bool → TickThread F

-- The attributes that the threads share, the two threads, and the commands, the latest first.
pub record Threads (F : Type 0) : Type 0 where
  pub velocity : TeleopVelocity F
  pub last_key_at : Option Time
  pub stop_sent : Bool
  pub key : KeyThread F
  pub tick : TickThread F
  pub published : List (TwistStamped F)

pub data Turn : Type 0 where
  press : String → Turn
  key_turn : Time → Turn
  fire : Time → Turn
  tick_turn : Turn

module _ {F : Type 0} ⦃o : FloatOps F⦄ where
  abbrev pub initial : Threads F
  initial = record {
    velocity = no_velocity;
    last_key_at = none;
    stop_sent = true;
    key = waiting;
    tick = sleeping;
    published = [];
  }

  -- A key that was read, once the thread is done with the one before: the velocity is read for
  -- `apply_key`.
  unfoldable pub begin_key : Params F → String → KeyThread F → Threads F → Threads F
  unfolding is_motion_key
  begin_key p text waiting s =
      if elem_str text help_keys
      then s
      else if not (is_motion_key text)
      then s
      else record s { key = store_velocity (apply_key p.keys text s.velocity) }
  begin_key p text _ s = s

  -- The next step of _apply_key.
  unfoldable pub step_key : Params F → Time → KeyThread F → Threads F → Threads F
  step_key p now waiting s = s
  step_key p now (store_velocity v) s = record s { velocity = v; key = stamp_key }
  step_key p now stamp_key s = record s { last_key_at = some now; key = test_zero now }
  step_key p now (test_zero at) s = record s {
    key = if is_zero s.velocity then read_linear at else mark_sent false;
  }
  step_key p now (read_linear at) s = record s { key = read_angular at s.velocity.linear_x_mps }
  step_key p now (read_angular at x) s = record s {
    key = send at (record { linear_x_mps = x; angular_z_radps = s.velocity.angular_z_radps });
  }
  step_key p now (send at v) s = record s {
    published = command p at v ∷ s.published;
    key = mark_sent true;
  }
  step_key p now (mark_sent sent) s = record s { stop_sent = sent; key = waiting }

  unfoldable pub begin_tick : Time → TickThread F → Threads F → Threads F
  begin_tick now sleeping s = record s { tick = test_key now }
  begin_tick now _ s = s

  -- The next step of _publish_tick and _is_timed_out.
  unfoldable pub step_tick : Params F → TickThread F → Threads F → Threads F
  step_tick p sleeping s = s
  step_tick p (test_key now) s = record s {
    tick = elim s.last_key_at [ none ↦ test_moving now | some _ ↦ test_age now ];
  }
  step_tick p (test_age now) s = record s {
    tick =
        if is_timed_out now s.last_key_at p.key_timeout
        then reset_velocity now
        else test_moving now;
  }
  step_tick p (reset_velocity now) s = record s { velocity = no_velocity; tick = test_moving now }
  step_tick p (test_moving now) s = record s {
    tick = if is_zero s.velocity then test_sent now else tick_linear now false;
  }
  step_tick p (test_sent now) s = record s {
    tick = if not s.stop_sent then tick_linear now true else sleeping;
  }
  step_tick p (tick_linear now mark) s = record s {
    tick = tick_angular now mark s.velocity.linear_x_mps;
  }
  step_tick p (tick_angular now mark x) s = record s {
    tick =
        tick_send now mark
          (record { linear_x_mps = x; angular_z_radps = s.velocity.angular_z_radps });
  }
  step_tick p (tick_send now mark v) s = record s {
    published = command p now v ∷ s.published;
    tick = tick_mark mark;
  }
  step_tick p (tick_mark mark) s = record s { stop_sent = mark; tick = sleeping }

  unfoldable pub turn : Params F → Turn → Threads F → Threads F
  unfolding begin_key step_key begin_tick step_tick
  turn p (press text) s = begin_key p text s.key s
  turn p (key_turn now) s = step_key p now s.key s
  turn p (fire now) s = begin_tick now s.tick s
  turn p tick_turn s = step_tick p s.tick s

  -- The threads after these turns, in this order.
  unfoldable pub interleave : Params F → List Turn → Threads F → Threads F
  unfolding turn
  interleave p [] s = s
  interleave p (t ∷ ts) s = interleave p ts (turn p t s)
