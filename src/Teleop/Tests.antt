-- ===== src/Teleop/Tests.antt =====
-- The keyboard node of src/humaware_teleop at concrete inputs.
use huma_ware.Common.{false, ◌≡◌, refl, true, List, [], ◌∷◌, ◌++◌, All}
use huma_ware.Common.Int.{pos}
use huma_ware.Ros.Fixed.{Fixed, milli, fixed_ops, fixed_laws}
use huma_ware.Teleop.Keymap.{TeleopVelocity, no_velocity, apply_key}
use huma_ware.Teleop.Node.{command, Params, is_timed_out}
use huma_ware.Teleop.Bounds.{Event, read_key, timer, IsWithin}
use huma_ware.Teleop.Threads.{Turn, press, key_turn, fire, tick_turn, initial, interleave}
use huma_ware.Teleop.Interleavings.{IsFit, interleave-IsFit}
use huma_ware.Teleop.Sequential.{in_sequence, newest, in_sequence-IsStill}
use huma_ware.Teleop.Races.{race, moving, race-published}
use huma_ware.Teleop.Stop.{IsStill}

abbrev params : Params Fixed
params = record {
  robot_id = "mock_001";
  keys = record {
    linear_step_mps = milli (pos 300);
    angular_step_radps = milli (pos 100);
    max_linear_velocity_mps = milli (pos 500);
    max_angular_velocity_radps = milli (pos 500);
  };
  key_timeout = pos 500;
}

-- A second step forward is cut at the limit.
cut_at_limit :
    apply_key params.keys "w"
      (record { linear_x_mps = milli (pos 300); angular_z_radps = milli (pos 0) })
    ≡ record { linear_x_mps = milli (pos 500); angular_z_radps = milli (pos 0) }
unfolding apply_key
cut_at_limit = refl

limits : IsWithin params.keys no_velocity
limits = record { linear_low = refl; linear_high = refl; angular_low = refl; angular_high = refl }

abbrev events : List Event
events = read_key 100 "w" ∷ timer 150 ∷ read_key 200 "q" ∷ []

abbrev turns : List Turn
turns = press "w" ∷ key_turn 100 ∷ fire 150 ∷ key_turn 150 ∷ tick_turn ∷ tick_turn ∷ []

interleave-IsFit_example : All (IsFit params.keys) (interleave params turns initial).published
interleave-IsFit_example = interleave-IsFit fixed_laws params limits turns

abbrev forward : TeleopVelocity Fixed
forward = record { linear_x_mps = milli (pos 300); angular_z_radps = milli (pos 0) }

race-published_example :
    let ts = fire 200 ∷ tick_turn ∷ [] in
    let s = interleave params (race 150 151 ++ ts) (moving forward 100 false []) in
    s.published ≡ command params 150 forward ∷ command params 151 no_velocity ∷ []
race-published_example =
    race-published fixed_laws params 150 151 100 forward false [] (fire 200 ∷ tick_turn ∷ []) refl
      refl (tt, (tt, tt))

timed_out :
    is_timed_out 700 (interleave params (in_sequence events) initial).last_key_at params.key_timeout
    ≡ true
unfolding interleave apply_key
timed_out = refl

in_sequence-IsStill_example :
    IsStill
      (newest (interleave params (in_sequence (events ++ (timer 700 ∷ []))) initial).published)
in_sequence-IsStill_example = in_sequence-IsStill fixed_laws params 700 events timed_out
