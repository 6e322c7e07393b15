-- ===== src/Policy/Tests.antt =====
-- The providers of src/humaware_policy at concrete inputs.
use huma_ware.Common.{
  ℕ, zero, suc, ◌+◌, ◌-◌, ◌*◌, ◌≡◌, refl, ◌↔◌, true, false, ◌&&◌, none, some, [], ◌∷◌, arith,
  length, ltb, leb, ◌==◌, if◌then◌else◌,
}
use huma_ware.Common.Int.{pos, pos_part}
use huma_ware.Ros.Float.{FloatOps}
use huma_ware.Ros.Fixed.{Fixed, nan, milli, fixed_ops}
use huma_ware.Msgs.ModeState.{mode_ai_policy}
use huma_ware.Msgs.SafetyState.{state_ok}
use huma_ware.Policy.Plan.{
  Waypoint, WaypointPlan, PlanProgress, out_of_fuel, advanced, initial_progress, advance_progress,
}
use huma_ware.Policy.Turns.{IsWithin, Ends}
use huma_ware.Policy.Advance.{
  IsMeasure, initial_progress-IsWithin, advance_progress-Ends_once, advance_progress-Ends_measured,
  advance_progress_absorbed,
}
use huma_ware.Policy.Parse.{
  Yaml, integer, float, mapping, Parsed, parsed, rejected, overflowed, sequence, item, seq_end,
  entry, map_end, load_plan, parse_plan,
}
use huma_ware.Policy.Durations.{IsPlayable}
use huma_ware.Policy.Loading.{IsForeign, load_plan-outcome}
use huma_ware.Policy.Scripted
use huma_ware.Policy.Scripted.{Provider, returned, tick}
use huma_ware.Policy.Emission.{IsOpen, Plays, tick-Plays}

abbrev forward : Waypoint Fixed
forward = record {
  linear_x_mps = milli (pos 100);
  angular_z_radps = milli (pos 0);
  duration_s = milli (pos 200);
}

abbrev turn_left : Waypoint Fixed
turn_left = record {
  linear_x_mps = milli (pos 0);
  angular_z_radps = milli (pos 300);
  duration_s = milli (pos 500);
}

abbrev once : WaypointPlan Fixed
once = record { waypoints = forward ∷ turn_left ∷ []; loop = false }

abbrev looped : WaypointPlan Fixed
looped = record { waypoints = forward ∷ []; loop = true }

-- A tick longer than a waypoint goes on to the next one.
skips_forward :
    advance_progress 2 initial_progress once (milli (pos 250))
    ≡ advanced
        (record { waypoint_index = 1; elapsed_in_waypoint_s = milli (pos 50); completed = false })
unfolding advance_progress initial_progress
skips_forward = refl

wraps_around :
    advance_progress 3 initial_progress looped (milli (pos 450))
    ≡ advanced
        (record { waypoint_index = 0; elapsed_in_waypoint_s = milli (pos 50); completed = false })
unfolding advance_progress initial_progress
wraps_around = refl

advance_progress-Ends_once_example :
    Ends once (advance_progress (length once.waypoints) initial_progress once (milli (pos 250)))
advance_progress-Ends_once_example =
    advance_progress-Ends_once once initial_progress (milli (pos 250)) refl refl
      (initial_progress-IsWithin once)

abbrev millis : Fixed → ℕ
millis nan = 0
millis (milli n) = pos_part n

abbrev start : PlanProgress Fixed
start = record { waypoint_index = 0; elapsed_in_waypoint_s = milli (pos 0); completed = false }

start-IsWithin : IsWithin looped start
start-IsWithin = record { done = λ e. absurd (ground arith); under_way = λ e n. ground arith }

forward_shrinks :
    IsMeasure looped (fixed_ops.add start.elapsed_in_waypoint_s (milli (pos 450))) millis
forward_shrinks zero w nan x g l = absurd (ground arith)
forward_shrinks zero w (milli n) x g l =
    let same : forward.duration_s ≡ w.duration_s = ground arith in ground arith
forward_shrinks (suc i) w e x g l = absurd (ground arith)

advance_progress-Ends_measured_example : Ends looped (
    advance_progress
      (suc (millis (fixed_ops.add start.elapsed_in_waypoint_s (milli (pos 450)))))
      start
      looped
      (milli (pos 450)))
advance_progress-Ends_measured_example =
    advance_progress-Ends_measured looped start (milli (pos 450)) millis forward_shrinks refl
      start-IsWithin

-- Numbers of four significant bits below 32: from 16 on, one is lost when it is subtracted.
instance abbrev coarse_ops : FloatOps ℕ
coarse_ops = record {
  float_zero = 0;
  lt = ltb;
  le = leb;
  eq = ◌==◌;
  neg = λ a. 0;
  add = ◌+◌;
  sub = λ a b. if leb 16 a && b == 1 then a else a - b;
  abs = λ a. a;
  to_single = λ a. a;
}

abbrev tiny : Waypoint ℕ
tiny = record { linear_x_mps = 1; angular_z_radps = 0; duration_s = 1 }

abbrev at_start : PlanProgress ℕ
at_start = record { waypoint_index = 0; elapsed_in_waypoint_s = 0; completed = false }

advance_progress_absorbed_example :
    advance_progress 1_000 at_start (record { waypoints = tiny ∷ []; loop = true }) 20 ≡ out_of_fuel
advance_progress_absorbed_example =
    advance_progress_absorbed tiny at_start 20 1_000 refl refl refl refl refl

-- `float(x)`: an integer of a million or more is too large for the numbers of the tests.
abbrev float_of : Yaml Fixed → Parsed Fixed
float_of (float x) = parsed x
float_of (integer n) =
    if ltb 1_000_000 (pos_part n) then overflowed else parsed (milli (pos (1_000 * pos_part n)))
float_of _ = rejected

abbrev document : Yaml Fixed
document = mapping (
    entry "waypoints"
      (sequence (
        item
          (mapping (
            entry "linear_x_mps" (float (milli (pos 100))) (
              entry "angular_z_radps" (float (milli (pos 0)))
                (entry "duration_s" (float (milli (pos 200))) map_end))))
          seq_end))
      map_end)

loads :
    load_plan float_of "plan.yaml" (some document)
    ≡ some (record { waypoints = forward ∷ []; loop = false })
unfolding load_plan parse_plan
loads = refl

abbrev too_large : Yaml Fixed
too_large = mapping (
    entry "waypoints"
      (sequence (item (mapping (entry "linear_x_mps" (integer (pos 2_000_000)) map_end)) seq_end))
      map_end)

raises_on_overflow : load_plan float_of "plan.yaml" (some too_large) ≡ none
unfolding load_plan parse_plan
raises_on_overflow = refl

load_plan-outcome_example :
    ((load_plan float_of "plan.yaml" (some too_large) ≡ none)
      ↔ IsForeign float_of "plan.yaml" (some too_large))
    × ((plan : WaypointPlan Fixed)
        → load_plan float_of "plan.yaml" (some too_large) ≡ some plan
        → IsPlayable plan)
load_plan-outcome_example = load_plan-outcome float_of "plan.yaml" (some too_large)

abbrev params : Scripted.Params
params = record { robot_id = "mock_001"; enabled = true }

abbrev provider : Provider Fixed
provider = record {
  active_mode = mode_ai_policy;
  safety_state = state_ok;
  safety_seen = true;
  plan = once;
  progress = start;
  period = milli (pos 250);
}

once-IsWithin : IsWithin once start
once-IsWithin = record { done = λ e. absurd (ground arith); under_way = λ e n. ground arith }

tick-Plays_example :
    (IsOpen params provider → Plays (length once.waypoints) params 7 provider)
    × (¬ IsOpen params provider
        → tick (length once.waypoints) params 7 provider ≡ returned provider none)
tick-Plays_example = tick-Plays params 7 provider refl refl once-IsWithin
