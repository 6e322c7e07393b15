-- ===== src/Policy/Parse.antt =====
-- plan.py, lines 44 to 87, and policy_provider_scripted_node.py, lines 81 to 100: reading a plan.
-- What the file holds is a parameter, as is Python's `float(x)`: it raises ValueError or TypeError, which
-- plan.py catches, and on an integer too large for a double OverflowError, which nothing catches.
use huma_ware.Common.{
  ◌+◌, String, Bool, true, false, not, Option, none, some, List, [], ◌∷◌, str_eq, ◌==◌,
  if◌then◌else◌,
}
use huma_ware.Common.Int.{ℤ, pos_part, neg_part}
use huma_ware.Ros.Float.{FloatOps}
use huma_ware.Policy.Plan.{Waypoint, WaypointPlan}

-- What `yaml.safe_load` returns, less its dates and byte strings. A mapping is a `dict`, so its keys are
-- distinct; a key that is no text is never looked up and is left out.
mutual
  pub data Yaml (F : Type 0) : Type 0 where
    null : Yaml F
    boolean : Bool → Yaml F
    integer : ℤ → Yaml F
    float : F → Yaml F
    text : String → Yaml F
    sequence : YamlSeq F → Yaml F
    mapping : YamlMap F → Yaml F

  pub data YamlSeq (F : Type 0) : Type 0 where
    seq_end : YamlSeq F
    item : Yaml F → YamlSeq F → YamlSeq F

  pub data YamlMap (F : Type 0) : Type 0 where
    map_end : YamlMap F
    entry : String → Yaml F → YamlMap F → YamlMap F

-- The result of a part of `parse_plan`: a value, the ValueError that its caller catches, or the
-- OverflowError that no caller catches.
pub data Parsed (A : Type 0) : Type 0 where
  parsed : A → Parsed A
  rejected overflowed : Parsed A

module _ {F : Type 0} where
  -- `raw[key]`, and `raw.get(key)`.
  abbrev pub lookup : String → YamlMap F → Option (Yaml F)
  lookup key map_end = none
  lookup key (entry k v m) = if str_eq k key then some v else lookup key m

module _ {F : Type 0} ⦃o : FloatOps F⦄ where
  -- `bool(value)`
  abbrev pub truthy : Yaml F → Bool
  truthy null = false
  truthy (boolean b) = b
  truthy (integer n) = not (pos_part n + neg_part n == 0)
  truthy (float x) = not (o.eq x o.float_zero)
  truthy (text s) = not (str_eq s "")
  truthy (sequence seq_end) = false
  truthy (sequence (item _ _)) = true
  truthy (mapping map_end) = false
  truthy (mapping (entry _ _ _)) = true

  -- `float(raw[key])`
  abbrev pub read_float : (Yaml F → Parsed F) → Option (Yaml F) → Parsed F
  read_float float_of none = rejected
  read_float float_of (some v) = float_of v

  unfoldable pub make_waypoint : Parsed F → Parsed F → Parsed F → Parsed (Waypoint F)
  make_waypoint rejected _ _ = rejected
  make_waypoint overflowed _ _ = overflowed
  make_waypoint (parsed linear_x) rejected _ = rejected
  make_waypoint (parsed linear_x) overflowed _ = overflowed
  make_waypoint (parsed linear_x) (parsed angular_z) rejected = rejected
  make_waypoint (parsed linear_x) (parsed angular_z) overflowed = overflowed
  make_waypoint (parsed linear_x) (parsed angular_z) (parsed duration) =
      if o.le duration o.float_zero
      then rejected
      else parsed
          (record { linear_x_mps = linear_x; angular_z_radps = angular_z; duration_s = duration })

  unfoldable pub parse_waypoint : (Yaml F → Parsed F) → Yaml F → Parsed (Waypoint F)
  unfolding make_waypoint
  parse_waypoint float_of (mapping raw) =
      make_waypoint (read_float float_of (lookup "linear_x_mps" raw))
        (read_float float_of (lookup "angular_z_radps" raw))
        (read_float float_of (lookup "duration_s" raw))
  parse_waypoint float_of _ = rejected

  -- The tuple of the waypoints: an exception on the first ends it.
  abbrev pub cons_waypoint :
      Parsed (Waypoint F) → Parsed (List (Waypoint F)) → Parsed (List (Waypoint F))
  cons_waypoint rejected _ = rejected
  cons_waypoint overflowed _ = overflowed
  cons_waypoint (parsed w) rejected = rejected
  cons_waypoint (parsed w) overflowed = overflowed
  cons_waypoint (parsed w) (parsed ws) = parsed (w ∷ ws)

  unfoldable pub parse_waypoints : (Yaml F → Parsed F) → YamlSeq F → Parsed (List (Waypoint F))
  unfolding parse_waypoint
  parse_waypoints float_of seq_end = parsed []
  parse_waypoints float_of (item y ys) =
      cons_waypoint (parse_waypoint float_of y) (parse_waypoints float_of ys)

  -- `raw.get("waypoints", [])`, which must be a list.
  abbrev pub waypoints_raw : Option (Yaml F) → Option (YamlSeq F)
  waypoints_raw none = some seq_end
  waypoints_raw (some (sequence ys)) = some ys
  waypoints_raw (some _) = none

  -- `bool(raw.get("loop", False))`
  abbrev pub loop_flag : Option (Yaml F) → Bool
  loop_flag none = false
  loop_flag (some v) = truthy v

  abbrev pub plan_of : Parsed (List (Waypoint F)) → Bool → Parsed (WaypointPlan F)
  plan_of rejected loop = rejected
  plan_of overflowed loop = overflowed
  plan_of (parsed ws) loop = parsed (record { waypoints = ws; loop = loop })

  abbrev pub parse_seq : (Yaml F → Parsed F) → Option (YamlSeq F) → Parsed (List (Waypoint F))
  parse_seq float_of none = rejected
  parse_seq float_of (some ys) = parse_waypoints float_of ys

  unfoldable pub parse_plan : (Yaml F → Parsed F) → YamlMap F → Parsed (WaypointPlan F)
  unfolding parse_waypoints
  parse_plan float_of raw =
      plan_of (parse_seq float_of (waypoints_raw (lookup "waypoints" raw)))
        (loop_flag (lookup "loop" raw))

  abbrev pub idle_plan : WaypointPlan F
  idle_plan = record { waypoints = []; loop = false }

  -- The node stays idle on a ValueError; `none` is an exception that it does not catch.
  abbrev pub or_idle : Parsed (WaypointPlan F) → Option (WaypointPlan F)
  or_idle rejected = some idle_plan
  or_idle overflowed = none
  or_idle (parsed plan) = some plan

  -- `yaml.safe_load(handle) or {}`. A document that is neither false nor a mapping has no `get`:
  -- AttributeError, which the node does not catch, is `none` here.
  abbrev pub mapping_of : Yaml F → Option (YamlMap F)
  mapping_of (mapping raw) = some raw
  mapping_of document = if truthy document then none else some map_end

  abbrev pub plan_from : (Yaml F → Parsed F) → Option (YamlMap F) → Option (WaypointPlan F)
  plan_from float_of none = none
  plan_from float_of (some raw) = or_idle (parse_plan float_of raw)

  -- `read` is what reading and parsing the file gives, `none` for OSError and YAMLError.
  unfoldable pub load_plan :
      (Yaml F → Parsed F) → String → Option (Yaml F) → Option (WaypointPlan F)
  load_plan float_of path none = some idle_plan
  load_plan float_of path (some document) =
      if str_eq path "" then some idle_plan else plan_from float_of (mapping_of document)
