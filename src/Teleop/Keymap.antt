-- ===== src/Teleop/Keymap.antt =====
-- keymap.py: how a key changes the velocity. A key is a text of one character.
use huma_ware.Common.{String, Bool, ◌||◌, List, [], ◌∷◌, elem_str, str_eq, if◌then◌else◌}
use huma_ware.Ros.Float.{FloatOps, min_float, max_float}

pub record TeleopVelocity (F : Type 0) : Type 0 where
  pub linear_x_mps : F
  pub angular_z_radps : F

abbrev pub stop_keys : List String
stop_keys = "x" ∷ " " ∷ []

abbrev pub help_keys : List String
help_keys = "h" ∷ "?" ∷ []

unfoldable pub is_motion_key : String → Bool
is_motion_key key = elem_str key ("w" ∷ "s" ∷ "a" ∷ "d" ∷ []) || elem_str key stop_keys

-- The steps and the limits that `apply_key` takes.
pub record KeyParams (F : Type 0) : Type 0 where
  pub linear_step_mps : F
  pub angular_step_radps : F
  pub max_linear_velocity_mps : F
  pub max_angular_velocity_radps : F

module _ {F : Type 0} ⦃o : FloatOps F⦄ where
  abbrev pub clamp : F → F → F → F
  clamp value minimum maximum = max_float minimum (min_float maximum value)

  abbrev pub no_velocity : TeleopVelocity F
  no_velocity = record { linear_x_mps = o.float_zero; angular_z_radps = o.float_zero }

  unfoldable pub clamped : KeyParams F → F → F → TeleopVelocity F
  clamped p linear angular = record {
    linear_x_mps = clamp linear (o.neg p.max_linear_velocity_mps) p.max_linear_velocity_mps;
    angular_z_radps =
        clamp angular (o.neg p.max_angular_velocity_radps) p.max_angular_velocity_radps;
  }

  unfoldable pub apply_key : KeyParams F → String → TeleopVelocity F → TeleopVelocity F
  unfolding clamped
  apply_key p key v =
      let linear = v.linear_x_mps in
      let angular = v.angular_z_radps in
      if str_eq key "w"
      then clamped p (o.add linear p.linear_step_mps) angular
      else if str_eq key "s"
      then clamped p (o.sub linear p.linear_step_mps) angular
      else if str_eq key "a"
      then clamped p linear (o.add angular p.angular_step_radps)
      else if str_eq key "d"
      then clamped p linear (o.sub angular p.angular_step_radps)
      else if elem_str key stop_keys
      then no_velocity
      else clamped p linear angular
