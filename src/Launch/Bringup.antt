-- ===== src/Launch/Bringup.antt =====
-- mock_bringup.launch.py, and sim_nav_demo.launch.py, which includes it: the arguments with their defaults,
-- and the nodes with their parameters.
use huma_ware.Common.{true, false, none, some, List, [], ◌∷◌, ◌++◌}
use huma_ware.Launch.Actions.{
  text_value, float_value, bool_value, Action, declare_launch_argument, log_info, node,
  Configuration,
}

abbrev pub arguments : List Action
arguments =
    declare_launch_argument "robot_id" "mock_001" "Robot namespace and runtime identifier."
    ∷ declare_launch_argument "enable_keyboard_teleop" "false"
        "Start keyboard teleop provider in this launch process."
    ∷ declare_launch_argument "enable_nav2_bridge" "false"
        "Start Nav2-style velocity bridge in this launch process."
    ∷ declare_launch_argument "teleop_heartbeat_timeout_s" "1.0"
        "Teleop heartbeat watchdog timeout for the safety manager."
    ∷ declare_launch_argument "teleop_heartbeat_timeout_triggers_mrm" "false"
        "When true, a teleop heartbeat timeout auto-triggers an MRM instead of only raising a warning."
    ∷ declare_launch_argument "require_hardware_heartbeat" "false"
        "When true, the safety manager watches the hardware heartbeat while in an active mode."
    ∷ declare_launch_argument "hardware_heartbeat_timeout_s" "1.0"
        "Hardware heartbeat watchdog timeout for the safety manager."
    ∷ declare_launch_argument "hardware_heartbeat_timeout_triggers_mrm" "true"
        "When true, a hardware heartbeat timeout auto-triggers an MRM instead of only raising a warning."
    ∷ declare_launch_argument "approved_command_timeout_s" "1.0"
        "Approved-command watchdog timeout for the safety manager."
    ∷ declare_launch_argument "approved_command_timeout_triggers_mrm" "false"
        "When true, a stalled approved-command stream auto-triggers an MRM instead of only raising a warning."
    ∷ declare_launch_argument "arbiter_publish_stop_on_block" "true"
        "When false, the arbiter stops emitting zero stop commands on block, leaving the safety manager as the stop authority."
    ∷ []

module _ (config : Configuration) where
  abbrev pub mode_manager : Action
  mode_manager = node (record {
    package_name = "humaware_mode_manager";
    executable = "mode_manager_node";
    namespace = config "robot_id";
    name = "mode_manager";
    output = "screen";
    emulate_tty = false;
    condition = none;
    parameters = ("robot_id", text_value (config "robot_id")) ∷ [];
  })

  abbrev pub capability_registry : Action
  capability_registry = node (record {
    package_name = "humaware_capability_registry";
    executable = "capability_registry_node";
    namespace = config "robot_id";
    name = "capability_registry";
    output = "screen";
    emulate_tty = false;
    condition = none;
    parameters = ("robot_id", text_value (config "robot_id")) ∷ [];
  })

  abbrev pub skill_server : Action
  skill_server = node (record {
    package_name = "humaware_skill_server";
    executable = "skill_server_node";
    namespace = config "robot_id";
    name = "skill_server";
    output = "screen";
    emulate_tty = false;
    condition = none;
    parameters = ("robot_id", text_value (config "robot_id")) ∷ [];
  })

  abbrev pub mock_robot : Action
  mock_robot = node (record {
    package_name = "humaware_mock_robot";
    executable = "mock_robot_node";
    namespace = config "robot_id";
    name = "mock_robot";
    output = "screen";
    emulate_tty = false;
    condition = none;
    parameters = ("robot_id", text_value (config "robot_id")) ∷ [];
  })

  abbrev pub safety_manager : Action
  safety_manager = node (record {
    package_name = "humaware_safety_manager";
    executable = "safety_manager_node";
    namespace = config "robot_id";
    name = "safety_manager";
    output = "screen";
    emulate_tty = false;
    condition = none;
    parameters =
        ("robot_id", text_value (config "robot_id"))
        ∷ ("teleop_heartbeat_timeout_s", float_value (config "teleop_heartbeat_timeout_s"))
        ∷ (
          "teleop_heartbeat_timeout_triggers_mrm",
          bool_value (config "teleop_heartbeat_timeout_triggers_mrm"),
        )
        ∷ ("require_hardware_heartbeat", bool_value (config "require_hardware_heartbeat"))
        ∷ ("hardware_heartbeat_timeout_s", float_value (config "hardware_heartbeat_timeout_s"))
        ∷ (
          "hardware_heartbeat_timeout_triggers_mrm",
          bool_value (config "hardware_heartbeat_timeout_triggers_mrm"),
        )
        ∷ ("approved_command_timeout_s", float_value (config "approved_command_timeout_s"))
        ∷ (
          "approved_command_timeout_triggers_mrm",
          bool_value (config "approved_command_timeout_triggers_mrm"),
        )
        ∷ [];
  })

  abbrev pub mock_locomotion_adapter : Action
  mock_locomotion_adapter = node (record {
    package_name = "humaware_mock_locomotion_adapter";
    executable = "mock_locomotion_adapter_node";
    namespace = config "robot_id";
    name = "mock_locomotion_adapter";
    output = "screen";
    emulate_tty = false;
    condition = none;
    parameters = ("robot_id", text_value (config "robot_id")) ∷ [];
  })

  abbrev pub command_arbiter : Action
  command_arbiter = node (record {
    package_name = "humaware_command_arbiter";
    executable = "command_arbiter_node";
    namespace = config "robot_id";
    name = "command_arbiter";
    output = "screen";
    emulate_tty = false;
    condition = none;
    parameters =
        ("robot_id", text_value (config "robot_id"))
        ∷ ("publish_stop_on_block", bool_value (config "arbiter_publish_stop_on_block"))
        ∷ [];
  })

  abbrev pub diagnostics_aggregator : Action
  diagnostics_aggregator = node (record {
    package_name = "humaware_diagnostics_aggregator";
    executable = "diagnostics_aggregator_node";
    namespace = config "robot_id";
    name = "diagnostics_aggregator";
    output = "screen";
    emulate_tty = false;
    condition = none;
    parameters = ("robot_id", text_value (config "robot_id")) ∷ [];
  })

  abbrev pub keyboard_teleop : Action
  keyboard_teleop = node (record {
    package_name = "humaware_keyboard_teleop";
    executable = "keyboard_teleop_node";
    namespace = config "robot_id";
    name = "keyboard_teleop";
    output = "screen";
    emulate_tty = true;
    condition = some (config "enable_keyboard_teleop");
    parameters = ("robot_id", text_value (config "robot_id")) ∷ [];
  })

  abbrev pub nav2_bridge : Action
  nav2_bridge = node (record {
    package_name = "humaware_nav2_bridge";
    executable = "nav2_bridge_node";
    namespace = config "robot_id";
    name = "nav2_bridge";
    output = "screen";
    emulate_tty = false;
    condition = some (config "enable_nav2_bridge");
    parameters = ("robot_id", text_value (config "robot_id")) ∷ [];
  })

  -- `generate_launch_description()`
  unfoldable pub mock_bringup : List Action
  mock_bringup =
      arguments
      ++ (log_info ("Starting HumaWare mock bringup for " ∷ config "robot_id" ∷ [])
          ∷ mode_manager
          ∷ capability_registry
          ∷ skill_server
          ∷ mock_robot
          ∷ safety_manager
          ∷ mock_locomotion_adapter
          ∷ command_arbiter
          ∷ diagnostics_aggregator
          ∷ keyboard_teleop
          ∷ nav2_bridge
          ∷ [])

  -- sim_nav_demo.launch.py includes that description, under the same arguments.
  unfoldable pub sim_nav_demo : List Action
  unfolding mock_bringup
  sim_nav_demo =
      declare_launch_argument "robot_id" "mock_001" "Robot namespace and runtime identifier."
      ∷ log_info ("Starting HumaWare simulation navigation demo scaffold" ∷ [])
      ∷ mock_bringup
