-- ===== src/Policy/Turns.antt =====
-- One turn of the loop of plan.py's `advance_progress`, and the positions that a tick may report.
use huma_ware.Common.{
  ℕ, zero, suc, ◌+◌, ◌≤◌, ◌<◌, ◌≡◌, refl, sym, subst, ◌↔◌, true, false, not, none, some, List, [],
  ◌∷◌, arith, length, get_elem?, is_nonempty, leb, if-elim,
}
use huma_ware.Ros.Float.{FloatOps}
use huma_ware.Policy.Plan.{
  Waypoint, WaypointPlan, PlanProgress, Outcome, advanced, Turn, stop, again, current_command,
  completed_at, resting_at, next_turn, turn_at, proceed, walk,
}

pub get_elem?-none : {A : Type 0} (xs : List A) (i : ℕ) → length xs ≤ i → get_elem? xs i ≡ none
get_elem?-none [] i h = refl
get_elem?-none (x ∷ xs) zero h = absurd (ground arith)
get_elem?-none (x ∷ xs) (suc i) h = get_elem?-none xs i (omega arith)

pub get_elem?-some :
    {A : Type 0} (xs : List A) (i : ℕ) → i < length xs → (x : A) × (get_elem? xs i ≡ some x)
get_elem?-some [] i h = absurd (ground arith)
get_elem?-some (x ∷ xs) zero h = (x, refl)
get_elem?-some (x ∷ xs) (suc i) h = get_elem?-some xs i (omega arith)

pub nonempty : {A : Type 0} (xs : List A) → (is_nonempty xs ≡ false) ↔ (length xs ≡ 0)
nonempty [] = ground arith
nonempty (x ∷ xs) = ground arith

module _ {F : Type 0} where
  -- A progress is at the plan's end, or within the plan, unless the plan is empty.
  pub record IsWithin (plan : WaypointPlan F) (p : PlanProgress F) : Type 0 where
    pub done : p.completed ≡ true → p.waypoint_index ≡ length plan.waypoints
    pub under_way :
        p.completed ≡ false
        → is_nonempty plan.waypoints ≡ true
        → p.waypoint_index < length plan.waypoints

module _ {F : Type 0} ⦃o : FloatOps F⦄ (plan : WaypointPlan F) where
  -- A position that a tick may report: the end of the plan, or a waypoint whose duration is not over.
  pub record IsResting (p : PlanProgress F) : Type 0 where
    pub within : IsWithin plan p
    pub running :
        p.completed ≡ false
        → (w : Waypoint F) × (current_command p plan ≡ some w)
          × (o.le w.duration_s p.elapsed_in_waypoint_s ≡ false)

  pub completed-IsResting : IsResting (completed_at (length plan.waypoints))
  unfolding current_command
  completed-IsResting = ground arith

  pub empty-IsResting : not (is_nonempty plan.waypoints) ≡ true → IsResting (completed_at 0)
  unfolding current_command
  empty-IsResting h = ground (arith, nonempty plan.waypoints)

  current_command_at :
      (p : PlanProgress F) (w : Waypoint F)
      → p.completed ≡ false
      → p.waypoint_index < length plan.waypoints
      → get_elem? plan.waypoints p.waypoint_index ≡ some w
      → current_command p plan ≡ some w
  unfolding current_command
  current_command_at p w c h g = ground (arith, nonempty plan.waypoints)

  rests_at_waypoint :
      (i : ℕ) (e : F) (w : Waypoint F)
      → i < length plan.waypoints
      → get_elem? plan.waypoints i ≡ some w
      → o.le w.duration_s e ≡ false
      → IsResting (resting_at i e)
  rests_at_waypoint i e w h g l = record {
    within = ground arith;
    running = λ c. (w, current_command_at (resting_at i e) w refl h g, l);
  }

  -- The four ways that a turn of the loop goes.
  pub data TurnCase (i : ℕ) (e : F) (w : Waypoint F) : Turn F → Type 0 where
    rests : o.le w.duration_s e ≡ false → TurnCase i e w (stop (resting_at i e))
    ends :
        o.le w.duration_s e ≡ true
        → i + 1 ≡ length plan.waypoints
        → plan.loop ≡ false
        → TurnCase i e w (stop (completed_at (length plan.waypoints)))
    steps :
        o.le w.duration_s e ≡ true
        → i + 1 < length plan.waypoints
        → TurnCase i e w (again (i + 1) (o.sub e w.duration_s))
    wraps :
        o.le w.duration_s e ≡ true
        → i + 1 ≡ length plan.waypoints
        → plan.loop ≡ true
        → TurnCase i e w (again 0 (o.sub e w.duration_s))

  next_turn-TurnCase :
      (i : ℕ) (e : F) (w : Waypoint F)
      → i < length plan.waypoints
      → o.le w.duration_s e ≡ true
      → TurnCase i e w (next_turn plan (i + 1) (o.sub e w.duration_s))
  unfolding next_turn
  next_turn-TurnCase i e w h l =
      if-elim (TurnCase i e w) _ _ (leb (length plan.waypoints) (i + 1))
        (λ at_end.
          if-elim (TurnCase i e w) _ _ plan.loop (λ c. wraps l (ground arith) c)
            (λ c. ends l (ground arith) c))
        (λ before. steps l (ground arith))

  pub turn_at-TurnCase :
      (i : ℕ) (e : F) (w : Waypoint F)
      → i < length plan.waypoints
      → TurnCase i e w (turn_at plan i e (some w))
  unfolding turn_at
  turn_at-TurnCase i e w h =
      if-elim (TurnCase i e w) _ _ (o.le w.duration_s e) (λ l. next_turn-TurnCase i e w h l)
        (λ l. rests l)

  -- The loop ended, at a position that a tick may report.
  abbrev pub Ends : Outcome F → Type 0
  Ends r = (q : PlanProgress F) × (r ≡ advanced q) × IsResting q

  proceed-Ends :
      (rest : ℕ → F → Outcome F) (i : ℕ) (e : F) (w : Waypoint F) (t : Turn F)
      → i < length plan.waypoints
      → get_elem? plan.waypoints i ≡ some w
      → (i + 1 < length plan.waypoints
          → o.le w.duration_s e ≡ true
          → Ends (rest (i + 1) (o.sub e w.duration_s)))
      → (plan.loop ≡ true → o.le w.duration_s e ≡ true → Ends (rest 0 (o.sub e w.duration_s)))
      → TurnCase i e w t
      → Ends (proceed rest t)
  proceed-Ends rest i e w t h g st wr (rests l) =
      (resting_at i e, refl, rests_at_waypoint i e w h g l)
  proceed-Ends rest i e w t h g st wr (ends l b c) =
      (completed_at (length plan.waypoints), refl, completed-IsResting)
  proceed-Ends rest i e w t h g st wr (steps l b) = st b l
  proceed-Ends rest i e w t h g st wr (wraps l b c) = wr c l

  -- One turn of `walk`, from a position within the plan.
  pub walk_turn :
      (fuel i : ℕ) (e : F) (w : Waypoint F)
      → i < length plan.waypoints
      → get_elem? plan.waypoints i ≡ some w
      → (i + 1 < length plan.waypoints
          → o.le w.duration_s e ≡ true
          → Ends (walk fuel plan (i + 1) (o.sub e w.duration_s)))
      → (plan.loop ≡ true
          → o.le w.duration_s e ≡ true
          → Ends (walk fuel plan 0 (o.sub e w.duration_s)))
      → Ends (walk (suc fuel) plan i e)
  unfolding walk
  walk_turn fuel i e w h g st wr =
      proceed-Ends (walk fuel plan) i e w (turn_at plan i e (get_elem? plan.waypoints i)) h g st wr
        (subst (λ x. TurnCase i e w (turn_at plan i e x)) (sym g) (turn_at-TurnCase i e w h))
