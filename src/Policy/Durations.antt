-- ===== src/Policy/Durations.antt =====
-- What the plans are that the scripted provider loads: the durations that plan.py lets through.
use huma_ware.Common.{
  ◌≡◌, refl, subst, inl, inr, Bool-cases, String, Bool, false, Option, none, some, List, [], ◌∷◌,
  arith, All, str_eq,
}
use huma_ware.Ros.Float.{FloatOps}
use huma_ware.Policy.Plan.{Waypoint, WaypointPlan}
use huma_ware.Policy.Parse.{
  Yaml, null, boolean, integer, float, text, sequence, mapping, YamlSeq, seq_end, item, YamlMap,
  Parsed, parsed, rejected, overflowed, lookup, make_waypoint, parse_waypoint, cons_waypoint,
  parse_waypoints, waypoints_raw, loop_flag, plan_of, parse_seq, parse_plan, or_idle, idle_plan,
  mapping_of, plan_from, load_plan,
}

module _ {F : Type 0} ⦃o : FloatOps F⦄ where
  -- Every duration of the plan fails the test `duration <= 0.0`.
  abbrev pub IsPlayable : WaypointPlan F → Type 0
  IsPlayable plan = All (λ w. o.le w.duration_s o.float_zero ≡ false) plan.waypoints

  abbrev IsLong : Waypoint F → Type 0
  IsLong w = o.le w.duration_s o.float_zero ≡ false

  make_waypoint-duration :
      (l a d : Parsed F) (w : Waypoint F) → make_waypoint l a d ≡ parsed w → IsLong w
  unfolding make_waypoint
  make_waypoint-duration l a d w h = ground arith

  parse_waypoint-duration :
      (float_of : Yaml F → Parsed F) (y : Yaml F) (w : Waypoint F)
      → parse_waypoint float_of y ≡ parsed w
      → IsLong w
  unfolding parse_waypoint
  parse_waypoint-duration float_of (mapping raw) w h = make_waypoint-duration _ _ _ w h
  parse_waypoint-duration float_of null w h = absurd (ground arith)
  parse_waypoint-duration float_of (boolean b) w h = absurd (ground arith)
  parse_waypoint-duration float_of (integer n) w h = absurd (ground arith)
  parse_waypoint-duration float_of (float x) w h = absurd (ground arith)
  parse_waypoint-duration float_of (text s) w h = absurd (ground arith)
  parse_waypoint-duration float_of (sequence ys) w h = absurd (ground arith)

  cons_waypoint-All :
      (first : Parsed (Waypoint F)) (rest : Parsed (List (Waypoint F))) (ws : List (Waypoint F))
      → ((w : Waypoint F) → first ≡ parsed w → IsLong w)
      → ((vs : List (Waypoint F)) → rest ≡ parsed vs → All IsLong vs)
      → cons_waypoint first rest ≡ parsed ws
      → All IsLong ws
  cons_waypoint-All (parsed w) (parsed vs) ws p q h =
      let same : w ∷ vs ≡ ws = ground arith in subst (All IsLong) same (p w refl, q vs refl)
  cons_waypoint-All (parsed w) rejected ws p q h = absurd (ground arith)
  cons_waypoint-All (parsed w) overflowed ws p q h = absurd (ground arith)
  cons_waypoint-All rejected rest ws p q h = absurd (ground arith)
  cons_waypoint-All overflowed rest ws p q h = absurd (ground arith)

  parse_waypoints-All :
      (float_of : Yaml F → Parsed F) (ys : YamlSeq F) (ws : List (Waypoint F))
      → parse_waypoints float_of ys ≡ parsed ws
      → All IsLong ws
  unfolding parse_waypoints
  parse_waypoints-All float_of seq_end [] h = tt
  parse_waypoints-All float_of seq_end (w ∷ ws) h = absurd (ground arith)
  parse_waypoints-All float_of (item y ys) ws h =
      cons_waypoint-All (parse_waypoint float_of y) (parse_waypoints float_of ys) ws
        (λ w e. parse_waypoint-duration float_of y w e)
        (λ vs e. parse_waypoints-All float_of ys vs e) h

  parse_seq-All :
      (float_of : Yaml F → Parsed F) (raw : Option (YamlSeq F)) (ws : List (Waypoint F))
      → parse_seq float_of raw ≡ parsed ws
      → All IsLong ws
  parse_seq-All float_of none ws h = absurd (ground arith)
  parse_seq-All float_of (some ys) ws h = parse_waypoints-All float_of ys ws h

  plan_of-IsPlayable :
      (found : Parsed (List (Waypoint F))) (loop : Bool) (plan : WaypointPlan F)
      → ((ws : List (Waypoint F)) → found ≡ parsed ws → All IsLong ws)
      → or_idle (plan_of found loop) ≡ some plan
      → IsPlayable plan
  plan_of-IsPlayable rejected loop plan k h =
      let same : idle_plan ≡ plan = ground arith in subst IsPlayable same tt
  plan_of-IsPlayable overflowed loop plan k h = absurd (ground arith)
  plan_of-IsPlayable (parsed ws) loop plan k h =
      let same : record { waypoints = ws; loop = loop } ≡ plan = ground arith in
      subst IsPlayable same (k ws refl)

  plan_from-IsPlayable :
      (float_of : Yaml F → Parsed F) (found : Option (YamlMap F)) (plan : WaypointPlan F)
      → plan_from float_of found ≡ some plan
      → IsPlayable plan
  unfolding parse_plan
  plan_from-IsPlayable float_of none plan h = absurd (ground arith)
  plan_from-IsPlayable float_of (some raw) plan h =
      plan_of-IsPlayable (parse_seq float_of (waypoints_raw (lookup "waypoints" raw)))
        (loop_flag (lookup "loop" raw)) plan
        (parse_seq-All float_of (waypoints_raw (lookup "waypoints" raw))) h

  pub load_plan-IsPlayable :
      (float_of : Yaml F → Parsed F) (path : String) (read : Option (Yaml F))
      (plan : WaypointPlan F)
      → load_plan float_of path read ≡ some plan
      → IsPlayable plan
  unfolding load_plan
  load_plan-IsPlayable float_of path none plan h =
      let same : idle_plan ≡ plan = ground arith in subst IsPlayable same tt
  load_plan-IsPlayable float_of path (some document) plan h = elim (Bool-cases (str_eq path "")) [
    | inl e ↦ let same : idle_plan ≡ plan = ground arith in subst IsPlayable same tt
    | inr e ↦ plan_from-IsPlayable float_of (mapping_of document) plan (ground arith)
  ]
