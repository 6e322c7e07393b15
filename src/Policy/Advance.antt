-- ===== src/Policy/Advance.antt =====
-- That the loop of plan.py's `advance_progress` ends, where it does, and what its result is.
use huma_ware.Common.{
  ℕ, zero, suc, ◌+◌, ◌-◌, ◌≤◌, ◌<◌, ◌≡◌, refl, true, false, not, some, [], ◌∷◌, arith, length,
  get_elem?, is_nonempty, if-elim,
}
use huma_ware.Ros.Float.{FloatOps}
use huma_ware.Policy.Plan.{
  Waypoint, WaypointPlan, PlanProgress, out_of_fuel, initial_progress, completed_at, walk,
  advance_progress,
}
use huma_ware.Policy.Turns.{get_elem?-some, nonempty, IsWithin, empty-IsResting, Ends, walk_turn}

module _ {F : Type 0} ⦃o : FloatOps F⦄ (plan : WaypointPlan F) where
  -- The values that the elapsed time can take in the loop from `start` on: a turn may take off the
  -- duration of a waypoint that is no longer than what is left.
  pub data Elapsed (start : F) : F → Type 0 where
    begin : Elapsed start start
    lower :
        (i : ℕ) (w : Waypoint F) (e : F)
        → Elapsed start e
        → get_elem? plan.waypoints i ≡ some w
        → o.le w.duration_s e ≡ true
        → Elapsed start (o.sub e w.duration_s)

  -- On those values, taking off a duration lowers the measure.
  abbrev pub IsMeasure : F → (F → ℕ) → Type 0
  IsMeasure start m =
      (i : ℕ) (w : Waypoint F) (e : F)
      → Elapsed start e
      → get_elem? plan.waypoints i ≡ some w
      → o.le w.duration_s e ≡ true
      → m (o.sub e w.duration_s) < m e

  walk-Ends_once :
      (fuel i : ℕ) (e : F)
      → plan.loop ≡ false
      → i < length plan.waypoints
      → length plan.waypoints - i ≤ fuel
      → Ends plan (walk fuel plan i e)
  walk-Ends_once zero i e n h f = absurd (omega arith)
  walk-Ends_once (suc fuel) i e n h f =
      let (w, g) = get_elem?-some plan.waypoints i h in
      walk_turn plan fuel i e w h g
        (λ b l. walk-Ends_once fuel (i + 1) (o.sub e w.duration_s) n b (omega arith))
        (λ c l. absurd (ground arith))

  walk-Ends_measured :
      (start : F) (m : F → ℕ)
      → IsMeasure start m
      → (fuel i : ℕ) (e : F) → Elapsed start e
      → i < length plan.waypoints
      → m e < fuel
      → Ends plan (walk fuel plan i e)
  walk-Ends_measured start m d zero i e x h f = absurd (omega arith)
  walk-Ends_measured start m d (suc fuel) i e x h f =
      let (w, g) = get_elem?-some plan.waypoints i h in
      walk_turn plan fuel i e w h g
        (λ b l.
          let less = d i w e x g l in
          walk-Ends_measured start m d fuel (i + 1) (o.sub e w.duration_s) (lower i w e x g l) b
            (omega arith))
        (λ c l.
          let less = d i w e x g l in
          walk-Ends_measured start m d fuel 0 (o.sub e w.duration_s) (lower i w e x g l)
            (omega arith) (omega arith))

module _ {F : Type 0} ⦃o : FloatOps F⦄ where
  advance-Ends :
      (plan : WaypointPlan F) (fuel : ℕ) (p : PlanProgress F) (dt : F)
      → o.lt dt o.float_zero ≡ false
      → IsWithin plan p
      → (p.waypoint_index < length plan.waypoints
          → Ends plan (walk fuel plan p.waypoint_index (o.add p.elapsed_in_waypoint_s dt)))
      → Ends plan (advance_progress fuel p plan dt)
  unfolding advance_progress
  advance-Ends plan fuel p dt h v k =
      if-elim (Ends plan) _ _ (o.lt dt o.float_zero) (λ n. absurd (ground arith))
        (λ n.
          if-elim (Ends plan) _ _ (not (is_nonempty plan.waypoints))
            (λ b. (completed_at 0, refl, empty-IsResting plan b))
            (λ b.
              if-elim (Ends plan) _ _ p.completed
                (λ c. (p, refl, record { within = v; running = λ u. absurd (ground arith) }))
                (λ c. k (v.under_way c (ground arith)))))

  pub initial_progress-IsWithin : (plan : WaypointPlan F) → IsWithin plan initial_progress
  unfolding initial_progress
  initial_progress-IsWithin plan = ground (arith, nonempty plan.waypoints)

  -- Without `loop`, from a position within the plan and for a `dt_s` that is not negative,
  -- `advance_progress` ends within as many turns as there are waypoints; its result is the end of the
  -- plan, or a waypoint that `current_command` gives and whose duration is not over.
  pub advance_progress-Ends_once :
      (plan : WaypointPlan F) (p : PlanProgress F) (dt : F)
      → plan.loop ≡ false
      → o.lt dt o.float_zero ≡ false
      → IsWithin plan p
      → Ends plan (advance_progress (length plan.waypoints) p plan dt)
  advance_progress-Ends_once plan p dt n h v =
      advance-Ends plan (length plan.waypoints) p dt h v (λ b.
        walk-Ends_once plan (length plan.waypoints) p.waypoint_index
          (o.add p.elapsed_in_waypoint_s dt) n b (omega arith))

  -- With `loop` too, from a position within the plan and for a `dt_s` that is not negative, it ends in
  -- such a result, if taking off the duration of a waypoint lowers a measure of the elapsed time, on the
  -- values reached from the first one by taking off durations that are no longer than what is left; the
  -- measure of the first value bounds the turns.
  pub advance_progress-Ends_measured :
      (plan : WaypointPlan F) (p : PlanProgress F) (dt : F) (m : F → ℕ)
      → IsMeasure plan (o.add p.elapsed_in_waypoint_s dt) m
      → o.lt dt o.float_zero ≡ false
      → IsWithin plan p
      → Ends plan (advance_progress (suc (m (o.add p.elapsed_in_waypoint_s dt))) p plan dt)
  advance_progress-Ends_measured plan p dt m d h v =
      let start = o.add p.elapsed_in_waypoint_s dt in
      advance-Ends plan (suc (m start)) p dt h v (λ b.
        walk-Ends_measured plan start m d (suc (m start)) p.waypoint_index start begin b
          (omega arith))

  absorbed :
      (w : Waypoint F) (e : F) (fuel : ℕ)
      → o.le w.duration_s e ≡ true
      → o.sub e w.duration_s ≡ e
      → walk fuel (record { waypoints = w ∷ []; loop = true }) 0 e ≡ out_of_fuel
  unfolding walk
  absorbed w e zero l s = refl
  absorbed w e (suc fuel) l s = rw (l, s, absorbed w e fuel l s)

  -- On a looping plan of one waypoint whose duration is lost in rounding when it is subtracted from
  -- the elapsed time, the loop does not end: no number of turns is enough.
  pub advance_progress_absorbed :
      (w : Waypoint F) (p : PlanProgress F) (dt : F) (fuel : ℕ)
      → o.lt dt o.float_zero ≡ false
      → p.completed ≡ false
      → p.waypoint_index ≡ 0
      → o.le w.duration_s (o.add p.elapsed_in_waypoint_s dt) ≡ true
      → o.sub (o.add p.elapsed_in_waypoint_s dt) w.duration_s ≡ o.add p.elapsed_in_waypoint_s dt
      → advance_progress fuel p (record { waypoints = w ∷ []; loop = true }) dt ≡ out_of_fuel
  unfolding advance_progress
  advance_progress_absorbed w p dt fuel h c i l s =
      rw (h, c, i, absorbed w (o.add p.elapsed_in_waypoint_s dt) fuel l s)
