-- ===== src/Policy/Plan.antt =====
-- plan.py, lines 13 to 41 and 90 to 146: a plan, a position in it, and how a tick advances it.
use huma_ware.Common.{
  ℕ, zero, suc, ◌+◌, Bool, true, false, ◌||◌, not, Option, none, some, List, length, get_elem?,
  is_nonempty, leb, if◌then◌else◌,
}
use huma_ware.Ros.Float.{FloatOps}

pub record Waypoint (F : Type 0) : Type 0 where
  pub linear_x_mps : F
  pub angular_z_radps : F
  pub duration_s : F

pub record WaypointPlan (F : Type 0) : Type 0 where
  pub waypoints : List (Waypoint F)
  pub loop : Bool

pub record PlanProgress (F : Type 0) : Type 0 where
  pub waypoint_index : ℕ
  pub elapsed_in_waypoint_s : F
  pub completed : Bool

-- `value_error` is the exception on a negative `dt_s`; `out_of_fuel` says that the loop did not end
-- within the fuel.
pub data Outcome (F : Type 0) : Type 0 where
  value_error : Outcome F
  out_of_fuel : Outcome F
  advanced : PlanProgress F → Outcome F

-- One evaluation of the loop's condition: the function's result, or the variables after the body.
pub data Turn (F : Type 0) : Type 0 where
  stop : PlanProgress F → Turn F
  again : ℕ → F → Turn F

module _ {F : Type 0} where
  unfoldable pub current_command : PlanProgress F → WaypointPlan F → Option (Waypoint F)
  current_command progress plan =
      if progress.completed || not (is_nonempty plan.waypoints)
      then none
      else if leb (length plan.waypoints) progress.waypoint_index
      then none
      else get_elem? plan.waypoints progress.waypoint_index

module _ {F : Type 0} ⦃o : FloatOps F⦄ where
  unfoldable pub initial_progress : PlanProgress F
  initial_progress = record {
    waypoint_index = 0;
    elapsed_in_waypoint_s = o.float_zero;
    completed = false;
  }

  abbrev pub completed_at : ℕ → PlanProgress F
  completed_at index = record {
    waypoint_index = index;
    elapsed_in_waypoint_s = o.float_zero;
    completed = true;
  }

  abbrev pub resting_at : ℕ → F → PlanProgress F
  resting_at index elapsed = record {
    waypoint_index = index;
    elapsed_in_waypoint_s = elapsed;
    completed = false;
  }

  -- The body of the loop, from the increment of `index` on.
  unfoldable pub next_turn : WaypointPlan F → ℕ → F → Turn F
  next_turn plan index elapsed =
      if leb (length plan.waypoints) index
      then if plan.loop then again 0 elapsed else stop (completed_at (length plan.waypoints))
      else again index elapsed

  unfoldable pub turn_at : WaypointPlan F → ℕ → F → Option (Waypoint F) → Turn F
  unfolding next_turn
  turn_at plan index elapsed none = stop (resting_at index elapsed)
  turn_at plan index elapsed (some w) =
      if o.le w.duration_s elapsed
      then next_turn plan (index + 1) (o.sub elapsed w.duration_s)
      else stop (resting_at index elapsed)

  -- What is left of the loop after a turn.
  abbrev pub proceed : (ℕ → F → Outcome F) → Turn F → Outcome F
  proceed rest (stop progress) = advanced progress
  proceed rest (again index elapsed) = rest index elapsed

  unfoldable pub walk : ℕ → WaypointPlan F → ℕ → F → Outcome F
  unfolding turn_at
  walk zero plan index elapsed = out_of_fuel
  walk (suc fuel) plan index elapsed =
      proceed (walk fuel plan) (turn_at plan index elapsed (get_elem? plan.waypoints index))

  unfoldable pub advance_progress : ℕ → PlanProgress F → WaypointPlan F → F → Outcome F
  unfolding walk
  advance_progress fuel progress plan dt_s =
      if o.lt dt_s o.float_zero
      then value_error
      else if not (is_nonempty plan.waypoints)
      then advanced (completed_at 0)
      else if progress.completed
      then advanced progress
      else walk fuel plan progress.waypoint_index (o.add progress.elapsed_in_waypoint_s dt_s)
