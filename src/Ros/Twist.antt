-- ===== src/Ros/Twist.antt =====
-- std_msgs/Header, geometry_msgs/Twist and geometry_msgs/TwistStamped. A new message is all zero.
use huma_ware.Common.{String}
use huma_ware.Ros.Float.{FloatOps}
use huma_ware.Ros.Time.{Time}

pub record Header : Type 0 where
  pub stamp : Time
  pub frame_id : String

pub record Vector3 (F : Type 0) : Type 0 where
  pub x : F
  pub y : F
  pub z : F

pub record Twist (F : Type 0) : Type 0 where
  pub linear : Vector3 F
  pub angular : Vector3 F

pub record TwistStamped (F : Type 0) : Type 0 where
  pub header : Header
  pub twist : Twist F

module _ {F : Type 0} ⦃o : FloatOps F⦄ where
  abbrev pub zero_vector : Vector3 F
  zero_vector = record { x = o.float_zero; y = o.float_zero; z = o.float_zero }

  abbrev pub zero_twist : Twist F
  zero_twist = record { linear = zero_vector; angular = zero_vector }
