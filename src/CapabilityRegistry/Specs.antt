-- ===== src/CapabilityRegistry/Specs.antt =====
-- capability_registry_node.py, lines 16 to 98: the table of capabilities. The timeouts of the table
-- are whole thousandths of a second, which doubles hold exactly; here they are in thousandths.
use huma_ware.Common.{ℕ, String, List, [], ◌∷◌}

pub record CapabilitySpec : Type 0 where
  pub name : String
  pub required_mode : String
  pub owner_node : String
  pub required_hardware : List String
  pub input_type : String
  pub output_type : String
  pub timeout_ms : ℕ
  pub safety_constraints : List String
  pub recovery_behavior : String

abbrev pub stand : CapabilitySpec
stand = record {
  name = "stand";
  required_mode = "inactive|teleop|autonomy|ai_policy";
  owner_node = "mock_locomotion_adapter";
  required_hardware = "legs" ∷ "imu" ∷ [];
  input_type = "std_msgs/msg/Empty";
  output_type = "humaware_msgs/msg/LocomotionState";
  timeout_ms = 5_000;
  safety_constraints = "safety_ok_or_warn" ∷ "not_estop" ∷ "balance_required" ∷ [];
  recovery_behavior = "stop";
}

abbrev pub stop : CapabilitySpec
stop = record {
  name = "stop";
  required_mode = "any";
  owner_node = "command_arbiter";
  required_hardware = "legs" ∷ [];
  input_type = "std_msgs/msg/Empty";
  output_type = "geometry_msgs/msg/TwistStamped";
  timeout_ms = 500;
  safety_constraints = "always_available" ∷ "command_timeout" ∷ [];
  recovery_behavior = "hold_stop";
}

abbrev pub walk_velocity : CapabilitySpec
walk_velocity = record {
  name = "walk_velocity";
  required_mode = "teleop|autonomy|ai_policy";
  owner_node = "command_arbiter";
  required_hardware = "legs" ∷ "imu" ∷ [];
  input_type = "geometry_msgs/msg/TwistStamped";
  output_type = "humaware_msgs/msg/LocomotionState";
  timeout_ms = 750;
  safety_constraints = "safety_ok_or_warn" ∷ "velocity_limit" ∷ "balance_required" ∷ [];
  recovery_behavior = "stop";
}

abbrev pub turn_in_place : CapabilitySpec
turn_in_place = record {
  name = "turn_in_place";
  required_mode = "teleop|autonomy|ai_policy";
  owner_node = "command_arbiter";
  required_hardware = "legs" ∷ "imu" ∷ [];
  input_type = "geometry_msgs/msg/TwistStamped";
  output_type = "humaware_msgs/msg/LocomotionState";
  timeout_ms = 750;
  safety_constraints = "safety_ok_or_warn" ∷ "angular_velocity_limit" ∷ "balance_required" ∷ [];
  recovery_behavior = "stop";
}

abbrev pub recover_posture : CapabilitySpec
recover_posture = record {
  name = "recover_posture";
  required_mode = "maintenance|inactive|teleop";
  owner_node = "safety_manager";
  required_hardware = "legs" ∷ "imu" ∷ [];
  input_type = "std_msgs/msg/Empty";
  output_type = "humaware_msgs/msg/SafetyState";
  timeout_ms = 15_000;
  safety_constraints = "operator_supervision" ∷ "not_estop" ∷ [];
  recovery_behavior = "request_teleop";
}

abbrev pub request_teleop : CapabilitySpec
request_teleop = record {
  name = "request_teleop";
  required_mode = "any";
  owner_node = "mode_manager";
  required_hardware = [];
  input_type = "std_msgs/msg/String";
  output_type = "humaware_msgs/msg/ModeState";
  timeout_ms = 2_000;
  safety_constraints = "operator_available" ∷ [];
  recovery_behavior = "hold_mode";
}

abbrev pub default_capabilities : List CapabilitySpec
default_capabilities =
    stand ∷ stop ∷ walk_velocity ∷ turn_in_place ∷ recover_posture ∷ request_teleop ∷ []
