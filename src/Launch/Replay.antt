-- ===== src/Launch/Replay.antt =====
-- replay_only.launch.py: the nodes that decide, without a robot. The nodes have the same description as
-- in mock_bringup.launch.py, but take no arguments other than the robot's name.
use huma_ware.Common.{String, false, none, List, [], ◌∷◌}
use huma_ware.Launch.Actions.{
  text_value, Action, declare_launch_argument, log_info, node, Configuration,
}

module _ (config : Configuration) where
  abbrev decider : String → String → String → Action
  decider package_name executable name = node (record {
    package_name = package_name;
    executable = executable;
    namespace = config "robot_id";
    name = name;
    output = "screen";
    emulate_tty = false;
    condition = none;
    parameters = ("robot_id", text_value (config "robot_id")) ∷ [];
  })

  unfoldable pub replay_only : List Action
  replay_only =
      declare_launch_argument "robot_id" "mock_001" "Robot namespace and runtime identifier."
      ∷ log_info (
          "Starting HumaWare replay-only profile for "
          ∷ config "robot_id"
          ∷ " (no hardware adapters will be launched)"
          ∷ [])
      ∷ decider "humaware_mode_manager" "mode_manager_node" "mode_manager"
      ∷ decider "humaware_capability_registry" "capability_registry_node" "capability_registry"
      ∷ decider "humaware_skill_server" "skill_server_node" "skill_server"
      ∷ decider "humaware_safety_manager" "safety_manager_node" "safety_manager"
      ∷ decider "humaware_command_arbiter" "command_arbiter_node" "command_arbiter"
      ∷ decider "humaware_diagnostics_aggregator" "diagnostics_aggregator_node"
          "diagnostics_aggregator"
      ∷ []
