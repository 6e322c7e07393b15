-- ===== src/Teleop/Node.antt =====
-- keyboard_teleop_node.py, lines 37 to 151: the node's state, what a key does, and the tick. Here each
-- call of the two threads is a whole one, which is what it does where no other call overlaps it; Threads has
-- the calls at the grain of single reads and writes, overlapping in any order.
use huma_ware.Common.{
  String, Bool, true, false, ◌&&◌, not, Option, none, some, elem_str, if◌then◌else◌,
}
use huma_ware.Ros.Float.{FloatOps}
use huma_ware.Ros.Time.{Time, Duration, older_than}
use huma_ware.Ros.Twist.{Header, TwistStamped, zero_vector}
use huma_ware.Teleop.Keymap.{
  TeleopVelocity, KeyParams, help_keys, is_motion_key, no_velocity, apply_key,
}

pub record Params (F : Type 0) : Type 0 where
  pub robot_id : String
  pub keys : KeyParams F
  pub key_timeout : Duration

pub record KeyboardTeleop (F : Type 0) : Type 0 where
  pub velocity : TeleopVelocity F
  pub last_key_at : Option Time
  pub stop_sent : Bool

abbrev pub is_timed_out : Time → Option Time → Duration → Bool
is_timed_out now none timeout = false
is_timed_out now (some last_key_at) timeout = older_than now last_key_at timeout

module _ {F : Type 0} ⦃o : FloatOps F⦄ where
  abbrev pub init : KeyboardTeleop F
  init = record { velocity = no_velocity; last_key_at = none; stop_sent = true }

  -- `self._velocity == TeleopVelocity()`: the dataclass compares its fields.
  abbrev pub is_zero : TeleopVelocity F → Bool
  is_zero v = o.eq v.linear_x_mps o.float_zero && o.eq v.angular_z_radps o.float_zero

  abbrev pub command : Params F → Time → TeleopVelocity F → TwistStamped F
  command p now v = record {
    header = record { stamp = now; frame_id = p.robot_id };
    twist = record {
      linear = record zero_vector { x = v.linear_x_mps };
      angular = record zero_vector { z = v.angular_z_radps };
    };
  }

  -- `_apply_key`, with the command that it publishes.
  unfoldable pub on_motion_key :
      Params F → Time → String → KeyboardTeleop F → KeyboardTeleop F × Option (TwistStamped F)
  on_motion_key p now key s =
      let v = apply_key p.keys key s.velocity in
      if is_zero v
      then (
        record { velocity = v; last_key_at = some now; stop_sent = true },
        some (command p now v),
      )
      else (record { velocity = v; last_key_at = some now; stop_sent = false }, none)

  -- What `_read_keys` does with a key that it read.
  unfoldable pub on_key :
      Params F → Time → String → KeyboardTeleop F → KeyboardTeleop F × Option (TwistStamped F)
  unfolding on_motion_key is_motion_key
  on_key p now key s =
      if elem_str key help_keys
      then (s, none)
      else if not (is_motion_key key)
      then (s, none)
      else on_motion_key p now key s

  -- The command of a tick, once the timeout was looked at.
  unfoldable pub publish_velocity :
      Params F → Time → KeyboardTeleop F → KeyboardTeleop F × Option (TwistStamped F)
  publish_velocity p now s =
      if is_zero s.velocity
      then if not s.stop_sent
        then (record s { stop_sent = true }, some (command p now s.velocity))
        else (s, none)
      else (record s { stop_sent = false }, some (command p now s.velocity))

  abbrev pub after_timeout : Params F → Time → KeyboardTeleop F → KeyboardTeleop F
  after_timeout p now s =
      if is_timed_out now s.last_key_at p.key_timeout
      then record s { velocity = no_velocity }
      else s

  -- `_publish_tick`: the heartbeat, and the command if there is one.
  unfoldable pub publish_tick :
      Params F → Time → KeyboardTeleop F → KeyboardTeleop F × Header × Option (TwistStamped F)
  unfolding publish_velocity
  publish_tick p now s =
      let r = publish_velocity p now (after_timeout p now s) in
      (r.0, record { stamp = now; frame_id = p.robot_id }, r.1)
