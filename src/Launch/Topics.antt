-- ===== src/Launch/Topics.antt =====
-- The topics that each node creates a publisher for, and their names in the robot's namespace.
use Prim.Native.String.{◌++◌ as concat}
use huma_ware.Common.{String, List, [], ◌∷◌, ◌++◌, map, str_eq, if◌then◌else◌}
use huma_ware.Common.Dict.{text_key}
use huma_ware.BagEvaluator.Topics.{is_slash}
use huma_ware.Launch.Actions.{NodeAction}

abbrev pub mode_manager_topics : List String
mode_manager_topics = "mode/state" ∷ "mode/transition_state" ∷ []

abbrev pub capability_registry_topics : List String
capability_registry_topics = "capabilities" ∷ []

abbrev pub skill_server_topics : List String
skill_server_topics = "skills/state" ∷ "policy/cmd_vel" ∷ []

abbrev pub mock_robot_topics : List String
mock_robot_topics = "state" ∷ "balance/state" ∷ "foot_contact/state" ∷ []

abbrev pub safety_manager_topics : List String
safety_manager_topics = "safety/state" ∷ "safety/mrm_state" ∷ []

abbrev pub mock_locomotion_adapter_topics : List String
mock_locomotion_adapter_topics = "locomotion/state" ∷ []

abbrev pub command_arbiter_topics : List String
command_arbiter_topics = "cmd_vel/approved" ∷ "runtime/command_arbitration_state" ∷ []

abbrev pub diagnostics_aggregator_topics : List String
diagnostics_aggregator_topics = "runtime/health" ∷ "/diagnostics" ∷ []

abbrev pub keyboard_teleop_topics : List String
keyboard_teleop_topics = "teleop/cmd_vel" ∷ "teleop/heartbeat" ∷ []

abbrev pub nav2_bridge_topics : List String
nav2_bridge_topics = "autonomy/cmd_vel" ∷ "navigation/nav2_bridge_state" ∷ []

-- The publishers of an executable; the launch files start no other one.
abbrev pub topics_of : String → List String
topics_of executable =
    if str_eq executable "mode_manager_node"
    then mode_manager_topics
    else if str_eq executable "capability_registry_node"
    then capability_registry_topics
    else if str_eq executable "skill_server_node"
    then skill_server_topics
    else if str_eq executable "mock_robot_node"
    then mock_robot_topics
    else if str_eq executable "safety_manager_node"
    then safety_manager_topics
    else if str_eq executable "mock_locomotion_adapter_node"
    then mock_locomotion_adapter_topics
    else if str_eq executable "command_arbiter_node"
    then command_arbiter_topics
    else if str_eq executable "diagnostics_aggregator_node"
    then diagnostics_aggregator_topics
    else if str_eq executable "keyboard_teleop_node"
    then keyboard_teleop_topics
    else if str_eq executable "nav2_bridge_node"
    then nav2_bridge_topics
    else []

-- A relative name stands in the namespace of its node.
unfoldable pub resolve : String → String → String
resolve namespace String.[] = concat "/" (concat namespace "/")
resolve namespace (String.◌∷◌ c s) =
    if is_slash c
    then String.◌∷◌ c s
    else concat "/" (concat namespace (concat "/" (String.◌∷◌ c s)))

abbrev pub published_by : NodeAction → List String
published_by n = map (resolve n.namespace) (topics_of n.executable)

abbrev pub topics : List NodeAction → List String
topics [] = []
topics (n ∷ ns) = published_by n ++ topics ns
