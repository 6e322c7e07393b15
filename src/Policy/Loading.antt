-- ===== src/Policy/Loading.antt =====
-- When policy_provider_scripted_node.py cannot load its plan: the exceptions that escape `_load_plan`.
use huma_ware.Common.{
  List, Bool, ◌≡◌, ◌↔◌, ◌⊎◌, String, true, false, Option, none, some, arith, str_eq,
}
use huma_ware.Ros.Float.{FloatOps}
use huma_ware.Policy.Plan.{WaypointPlan, Waypoint}
use huma_ware.Policy.Parse.{
  Yaml, null, boolean, integer, float, text, sequence, mapping, YamlSeq, seq_end, item, YamlMap,
  map_end, Parsed, parsed, rejected, overflowed, truthy, read_float, lookup, make_waypoint,
  parse_waypoint, cons_waypoint, parse_waypoints, waypoints_raw, loop_flag, plan_of, parse_seq,
  parse_plan, or_idle, mapping_of, plan_from, load_plan,
}
use huma_ware.Policy.Durations.{IsPlayable, load_plan-IsPlayable}

abbrev IsParsed : {A : Type 0} → Parsed A → Type 0
IsParsed (parsed x) = Unit
IsParsed rejected = ⊥
IsParsed overflowed = ⊥

module _ {F : Type 0} ⦃o : FloatOps F⦄ where
  abbrev IsPositive : Parsed F → Type 0
  IsPositive (parsed x) = o.le x o.float_zero ≡ false
  IsPositive rejected = ⊥
  IsPositive overflowed = ⊥

  module _ (float_of : Yaml F → Parsed F) where
    -- A mapping whose three fields convert, the duration to a number that fails `<= 0.0`.
    abbrev pub IsWaypoint : Yaml F → Type 0
    IsWaypoint (mapping raw) =
        IsParsed (read_float float_of (lookup "linear_x_mps" raw))
        × IsParsed (read_float float_of (lookup "angular_z_radps" raw))
        × IsPositive (read_float float_of (lookup "duration_s" raw))
    IsWaypoint _ = ⊥

    -- A mapping of whose fields one overflows, and those read before it convert.
    abbrev pub IsTooLarge : Yaml F → Type 0
    IsTooLarge (mapping raw) =
        (read_float float_of (lookup "linear_x_mps" raw) ≡ overflowed)
        ⊎ (IsParsed (read_float float_of (lookup "linear_x_mps" raw))
            × ((read_float float_of (lookup "angular_z_radps" raw) ≡ overflowed)
                ⊎ (IsParsed (read_float float_of (lookup "angular_z_radps" raw))
                    × (read_float float_of (lookup "duration_s" raw) ≡ overflowed))))
    IsTooLarge _ = ⊥

    -- An entry of the list is too large, and those before it are waypoints.
    abbrev pub HasTooLarge : YamlSeq F → Type 0
    HasTooLarge seq_end = ⊥
    HasTooLarge (item y ys) = IsTooLarge y ⊎ (IsWaypoint y × HasTooLarge ys)

    abbrev pub HasTooLargeWaypoint : Option (Yaml F) → Type 0
    HasTooLargeWaypoint (some (sequence ys)) = HasTooLarge ys
    HasTooLargeWaypoint _ = ⊥

    -- What the node cannot read: a document that is neither false nor a mapping, or a mapping whose list
    -- of waypoints has a number too large for a double.
    abbrev pub IsUnreadable : Yaml F → Type 0
    IsUnreadable (mapping raw) = HasTooLargeWaypoint (lookup "waypoints" raw)
    IsUnreadable document = truthy document ≡ true

    abbrev pub IsForeign : String → Option (Yaml F) → Type 0
    IsForeign path none = ⊥
    IsForeign path (some document) = (str_eq path "" ≡ false) × IsUnreadable document

    make_waypoint-IsParsed :
        (l a d : Parsed F)
        → IsParsed (make_waypoint l a d) ↔ (IsParsed l × IsParsed a × IsPositive d)
    unfolding make_waypoint
    make_waypoint-IsParsed l a d = ground arith

    make_waypoint-overflowed :
        (l a d : Parsed F)
        → (make_waypoint l a d ≡ overflowed)
          ↔ ((l ≡ overflowed) ⊎ (IsParsed l × ((a ≡ overflowed) ⊎ (IsParsed a × (d ≡ overflowed)))))
    unfolding make_waypoint
    make_waypoint-overflowed l a d = ground arith

    parse_waypoint-IsWaypoint : (y : Yaml F) → IsParsed (parse_waypoint float_of y) ↔ IsWaypoint y
    unfolding parse_waypoint
    parse_waypoint-IsWaypoint (mapping raw) = make_waypoint-IsParsed _ _ _
    parse_waypoint-IsWaypoint null = ground arith
    parse_waypoint-IsWaypoint (boolean b) = ground arith
    parse_waypoint-IsWaypoint (integer n) = ground arith
    parse_waypoint-IsWaypoint (float x) = ground arith
    parse_waypoint-IsWaypoint (text s) = ground arith
    parse_waypoint-IsWaypoint (sequence ys) = ground arith

    parse_waypoint-IsTooLarge :
        (y : Yaml F) → (parse_waypoint float_of y ≡ overflowed) ↔ IsTooLarge y
    unfolding parse_waypoint
    parse_waypoint-IsTooLarge (mapping raw) = make_waypoint-overflowed _ _ _
    parse_waypoint-IsTooLarge null = ground arith
    parse_waypoint-IsTooLarge (boolean b) = ground arith
    parse_waypoint-IsTooLarge (integer n) = ground arith
    parse_waypoint-IsTooLarge (float x) = ground arith
    parse_waypoint-IsTooLarge (text s) = ground arith
    parse_waypoint-IsTooLarge (sequence ys) = ground arith

    cons_waypoint-overflowed :
        (first : Parsed (Waypoint F)) (rest : Parsed (List (Waypoint F)))
        → (cons_waypoint first rest ≡ overflowed)
          ↔ ((first ≡ overflowed) ⊎ (IsParsed first × (rest ≡ overflowed)))
    cons_waypoint-overflowed first rest = ground arith

    parse_waypoints-HasTooLarge :
        (ys : YamlSeq F) → (parse_waypoints float_of ys ≡ overflowed) ↔ HasTooLarge ys
    unfolding parse_waypoints
    parse_waypoints-HasTooLarge seq_end = ground arith
    parse_waypoints-HasTooLarge (item y ys) = ground (
      arith,
      cons_waypoint-overflowed (parse_waypoint float_of y) (parse_waypoints float_of ys),
      parse_waypoint-IsTooLarge y,
      parse_waypoint-IsWaypoint y,
      parse_waypoints-HasTooLarge ys,
    )

    or_idle-none :
        (found : Parsed (List (Waypoint F))) (loop : Bool)
        → (or_idle (plan_of found loop) ≡ none) ↔ (found ≡ overflowed)
    or_idle-none found loop = ground arith

    parse_seq-HasTooLarge :
        (raw : Option (Yaml F))
        → (parse_seq float_of (waypoints_raw raw) ≡ overflowed) ↔ HasTooLargeWaypoint raw
    parse_seq-HasTooLarge none = ground (arith, parse_waypoints-HasTooLarge seq_end)
    parse_seq-HasTooLarge (some (sequence ys)) = parse_waypoints-HasTooLarge ys
    parse_seq-HasTooLarge (some null) = ground arith
    parse_seq-HasTooLarge (some (boolean b)) = ground arith
    parse_seq-HasTooLarge (some (integer n)) = ground arith
    parse_seq-HasTooLarge (some (float x)) = ground arith
    parse_seq-HasTooLarge (some (text s)) = ground arith
    parse_seq-HasTooLarge (some (mapping raw)) = ground arith

    plan_from-mapping :
        (raw : YamlMap F)
        → (plan_from float_of (some raw) ≡ none) ↔ HasTooLargeWaypoint (lookup "waypoints" raw)
    unfolding parse_plan
    plan_from-mapping raw = ground (
      arith,
      or_idle-none (parse_seq float_of (waypoints_raw (lookup "waypoints" raw)))
          (loop_flag (lookup "loop" raw)),
      parse_seq-HasTooLarge (lookup "waypoints" raw),
    )

    plan_from-empty : ¬ (plan_from float_of (some map_end) ≡ none)
    plan_from-empty h = (plan_from-mapping map_end).0 h

    plan_from-IsUnreadable :
        (document : Yaml F)
        → (plan_from float_of (mapping_of document) ≡ none) ↔ IsUnreadable document
    plan_from-IsUnreadable (mapping raw) = plan_from-mapping raw
    plan_from-IsUnreadable null = ground (arith, plan_from-empty)
    plan_from-IsUnreadable (boolean b) = ground (arith, plan_from-empty)
    plan_from-IsUnreadable (integer n) = ground (arith, plan_from-empty)
    plan_from-IsUnreadable (float x) = ground (arith, plan_from-empty)
    plan_from-IsUnreadable (text s) = ground (arith, plan_from-empty)
    plan_from-IsUnreadable (sequence ys) = ground (arith, plan_from-empty)

    load_plan-none :
        (path : String) (read : Option (Yaml F))
        → (load_plan float_of path read ≡ none) ↔ IsForeign path read
    unfolding load_plan
    load_plan-none path none = ground arith
    load_plan-none path (some document) = ground (arith, plan_from-IsUnreadable document)

    -- Loading a plan raises exactly on a document, found under a path, that is neither false nor a
    -- mapping, or that is a mapping in whose list of waypoints a number overflows, the entries before it
    -- being waypoints and the fields read before it converting; each plan that it returns, the idle one
    -- included, has only durations that fail the test `duration <= 0.0`.
    pub load_plan-outcome :
        (path : String) (read : Option (Yaml F))
        → ((load_plan float_of path read ≡ none) ↔ IsForeign path read)
          × ((plan : WaypointPlan F) → load_plan float_of path read ≡ some plan → IsPlayable plan)
    load_plan-outcome path read =
        (load_plan-none path read, load_plan-IsPlayable float_of path read)
