-- ===== src/Policy/Advancing.antt =====
-- Where plan.py's `advance_progress` goes, by a relation apart from its loop.
use huma_ware.Common.{
  ℕ, zero, suc, ◌+◌, ◌<◌, ◌≡◌, sym, subst, true, false, some, arith, length, get_elem?, is_nonempty,
}
use huma_ware.Ros.Float.{FloatOps}
use huma_ware.Policy.Plan.{
  Waypoint, WaypointPlan, PlanProgress, Outcome, advanced, Turn, proceed, turn_at, completed_at,
  resting_at, walk, advance_progress,
}
use huma_ware.Policy.Turns.{
  get_elem?-some, IsWithin, TurnCase, rests, ends, steps, wraps, turn_at-TurnCase,
}

module _ {F : Type 0} ⦃o : FloatOps F⦄ (plan : WaypointPlan F) where
  -- A time spent from the start of a waypoint on, and the position that it leads to: the waypoint while
  -- its duration is not over, else the next one with the time left; after the last, the first one or the
  -- end of the plan.
  pub data Advances : ℕ → F → PlanProgress F → Type 0 where
    rests_here :
        {i : ℕ} {e : F} (w : Waypoint F)
        → get_elem? plan.waypoints i ≡ some w
        → o.le w.duration_s e ≡ false
        → Advances i e (resting_at i e)
    goes_on :
        {i : ℕ} {e : F} {q : PlanProgress F} (w : Waypoint F)
        → get_elem? plan.waypoints i ≡ some w
        → o.le w.duration_s e ≡ true
        → i + 1 < length plan.waypoints
        → Advances (i + 1) (o.sub e w.duration_s) q
        → Advances i e q
    starts_again :
        {i : ℕ} {e : F} {q : PlanProgress F} (w : Waypoint F)
        → get_elem? plan.waypoints i ≡ some w
        → o.le w.duration_s e ≡ true
        → i + 1 ≡ length plan.waypoints
        → plan.loop ≡ true
        → Advances 0 (o.sub e w.duration_s) q
        → Advances i e q
    plan_ends :
        {i : ℕ} {e : F} (w : Waypoint F)
        → get_elem? plan.waypoints i ≡ some w
        → o.le w.duration_s e ≡ true
        → i + 1 ≡ length plan.waypoints
        → plan.loop ≡ false
        → Advances i e (completed_at (length plan.waypoints))

  -- From a position, `dt_s` later: the end of an empty plan, the same position once the plan is
  -- completed, and else where the elapsed time and `dt_s` together lead.
  pub record IsAdvance (p : PlanProgress F) (dt : F) (q : PlanProgress F) : Type 0 where
    pub empty : is_nonempty plan.waypoints ≡ false → q ≡ completed_at 0
    pub completed : is_nonempty plan.waypoints ≡ true → p.completed ≡ true → q ≡ p
    pub under_way :
        is_nonempty plan.waypoints ≡ true
        → p.completed ≡ false
        → Advances p.waypoint_index (o.add p.elapsed_in_waypoint_s dt) q

  advanced-injective : (p q : PlanProgress F) → advanced p ≡ advanced q → p ≡ q
  advanced-injective p q h = ground arith

  turn-Advances :
      (rest : ℕ → F → Outcome F) (i : ℕ) (e : F) (w : Waypoint F) (q : PlanProgress F) (t : Turn F)
      → i < length plan.waypoints
      → get_elem? plan.waypoints i ≡ some w
      → ((j : ℕ) (f : F) → j < length plan.waypoints → rest j f ≡ advanced q → Advances j f q)
      → TurnCase plan i e w t
      → proceed rest t ≡ advanced q
      → Advances i e q
  turn-Advances rest i e w q t h g k (rests l) r =
      subst (Advances i e) (advanced-injective _ _ r) (rests_here w g l)
  turn-Advances rest i e w q t h g k (ends l b c) r =
      subst (Advances i e) (advanced-injective _ _ r) (plan_ends w g l b c)
  turn-Advances rest i e w q t h g k (steps l b) r = goes_on w g l b (k (i + 1) _ b r)
  turn-Advances rest i e w q t h g k (wraps l b c) r =
      starts_again w g l b c (k 0 _ (omega arith) r)

  walk-Advances :
      (fuel i : ℕ) (e : F) (q : PlanProgress F)
      → i < length plan.waypoints
      → walk fuel plan i e ≡ advanced q
      → Advances i e q
  unfolding walk
  walk-Advances zero i e q h r = absurd (ground arith)
  walk-Advances (suc fuel) i e q h r =
      let (w, g) = get_elem?-some plan.waypoints i h in
      turn-Advances (walk fuel plan) i e w q (turn_at plan i e (get_elem? plan.waypoints i)) h g
        (λ j f b s. walk-Advances fuel j f q b s)
        (subst (λ x. TurnCase plan i e w (turn_at plan i e x)) (sym g)
          (turn_at-TurnCase plan i e w h))
        r

  pub advance_progress-IsAdvance :
      (fuel : ℕ) (p : PlanProgress F) (dt : F) (q : PlanProgress F)
      → o.lt dt o.float_zero ≡ false
      → IsWithin plan p
      → advance_progress fuel p plan dt ≡ advanced q
      → IsAdvance p dt q
  unfolding advance_progress
  advance_progress-IsAdvance fuel p dt q h v r = record {
    empty = λ n. ground arith;
    completed = λ n c. ground arith;
    under_way = λ n c.
        walk-Advances fuel p.waypoint_index (o.add p.elapsed_in_waypoint_s dt) q (v.under_way c n)
          (ground arith);
  }
