-- ===== src/Launch/Tests.antt =====
-- The launch files under concrete arguments.
use huma_ware.Common.{
  String, Bool, ◌≡◌, refl, true, false, ◌||◌, Option, none, some, List, [], ◌∷◌, map, str_eq,
  if◌then◌else◌,
}
use huma_ware.Launch.Actions.{
  ParameterValue, text_value, float_value, bool_value, NodeAction, Configuration, started,
}
use huma_ware.Launch.Bringup.{mock_bringup}
use huma_ware.Launch.Replay.{replay_only}

abbrev is_true : String → Option Bool
is_true t = if str_eq t "true" then some true else if str_eq t "false" then some false else none

abbrev converts : ParameterValue → Bool
converts (text_value t) = true
converts (float_value t) = str_eq t "0.5"
converts (bool_value t) = str_eq t "true" || str_eq t "false"

abbrev names : Option (List NodeAction) → List String
names none = []
names (some ns) = map (λ (n : NodeAction). n.name) ns

abbrev config : Configuration
config name =
    if str_eq name "robot_id"
    then "mock_001"
    else if str_eq name "enable_nav2_bridge"
    then "true"
    else "false"

-- A text that does not convert to its parameter ends the launch.
no_float : started is_true converts (mock_bringup config) ≡ none
unfolding started mock_bringup
no_float = refl

-- The replay starts six nodes, and none that drives a robot.
replay_nodes :
    names (started is_true (λ v. true) (replay_only config))
    ≡ "mode_manager" ∷ "capability_registry" ∷ "skill_server" ∷ "safety_manager" ∷ "command_arbiter"
      ∷ "diagnostics_aggregator" ∷ []
unfolding started replay_only
replay_nodes = refl
