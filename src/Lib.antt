-- ===== src/Lib.antt =====
-- Verification of the HumaWare runtime: the ROS 2 nodes that stand between the sources of velocity
-- commands and a humanoid robot.
--
-- How the parts interact. The keyboard, the Nav2 bridge, the policy providers and the skill server
-- propose velocity commands. The command arbiter chooses among them by the mode of the mode manager and
-- the safety state of the safety manager, limits the chosen one and publishes it as approved. The
-- locomotion adapter and a hardware adapter act on approved commands only, and each tests mode, safety
-- and the age of the command again. The diagnostics aggregator watches the published states. Nodes share
-- no memory: they meet in messages, so each is modelled by itself first, as a record of its state and one
-- function for each callback, service and timer. A function takes the parameters that the code reads,
-- the clock readings and the message, and gives the new state with what is published. Theorems on whole
-- runs quantify over lists of callbacks in any order.
--
-- The modules and the code:
--   SafetyManager    humaware_safety/humaware_safety_manager/humaware_safety_manager/
--                    safety_manager_node.py. Watchdog is evaluate_watchdogs and check_heartbeat, Reason
--                    is select_mrm_reason, Node the class; Trips, Classify and Latch are proofs.
--   CommandArbiter   humaware_runtime/humaware_command_arbiter/humaware_command_arbiter/
--                    command_arbiter_node.py. Select is the choice and the limits, Node the class;
--                    Priority, Limits, Output, Heard and Wiring are proofs.
--   ModeManager      humaware_runtime/humaware_mode_manager/humaware_mode_manager/mode_manager_node.py.
--                    Transition is evaluate_transition, Node the class with its two services; Rules,
--                    Services and Traces are proofs.
--   HardwareAdapter  humaware_hardware/humaware_hardware_adapter_template/
--                    humaware_hardware_adapter_template/template_adapter_node.py. Gate is
--                    should_release_output, Node the class; Release and History are proofs.
--   Locomotion       humaware_locomotion/humaware_mock_locomotion_adapter/
--                    humaware_mock_locomotion_adapter/mock_locomotion_adapter_node.py. Node is the
--                    class; Motion, Constraints and Settling are proofs.
--   Nav2Bridge       humaware_navigation/humaware_nav2_bridge/humaware_nav2_bridge/nav2_bridge_node.py.
--                    Node is the class; Forwarding holds the proofs.
--   Policy           humaware_policy: Plan and Parse are plan.py of the scripted provider (parse_plan,
--                    advance_progress, current_command) with the node's _load_plan, Scripted and Stub
--                    are the two nodes; Turns, Advance, Advancing, Durations, Loading and
--                    Emission are proofs.
--   SkillServer      humaware_runtime/humaware_skill_server/humaware_skill_server/skill_server_node.py.
--                    Requests is evaluate_request and the commands, Node the class; Execution holds the
--                    proofs.
--   CapabilityRegistry
--                    humaware_runtime/humaware_capability_registry/humaware_capability_registry/
--                    capability_registry_node.py. Specs is the table, Node the rest; Offers has the proofs
--                    on the states, Client those on the skill server that receives them.
--   Diagnostics      humaware_diagnostics/humaware_diagnostics_aggregator/
--                    humaware_diagnostics_aggregator/diagnostics_aggregator_node.py. Topics holds the
--                    functions of the file, Node the class; Health and Coverage are proofs.
--   Teleop           humaware_teleop/humaware_keyboard_teleop/humaware_keyboard_teleop: Keymap is keymap.py,
--                    Node the class of keyboard_teleop_node.py with each call whole, Threads the same at the
--                    grain of single reads and writes of its two threads; Bounds, Stop, Interleavings,
--                    Sequential and Races are proofs.
--   BagEvaluator     humaware_tools/humaware_bag_evaluator/humaware_bag_evaluator: Topics, Walk, Result and
--                    Report are evaluator.py (topic names, the loop over the messages, the verdict,
--                    format_summary), Cli is cli.py; Names, Reference, Gaps, Silence, Readings, Changes,
--                    Missing and Outcome are proofs.
--   MockRobot        humaware_hardware/humaware_mock_robot/humaware_mock_robot/mock_robot_node.py: Node is the
--                    class, Mirror the proof on what it repeats.
--   Launch           humaware_launch/launch and humaware_examples/launch: Actions is what they use of the
--                    launch system, Bringup mock_bringup.launch.py and sim_nav_demo.launch.py, Replay
--                    replay_only.launch.py, Topics the publishers of the nodes; Coverage holds the proofs.
--   Runtime          the safety manager, the command arbiter and the hardware adapter together: System has
--                    their states, the messages between them and one step function over the callbacks of
--                    the three; Waiting, Taking, Stop and Limits are proofs.
--   Msgs             humaware_msgs/msg: a record for each message, and its constants as codes.
--   Ros              times, durations, velocity messages, diagnostic messages, floating point numbers.
--   Common           lists, texts, signed integers, dictionaries, the order of texts.
-- The module paths above stand below the folder src of the repository. Each component has a module Tests
-- with runs at concrete inputs.
--
-- Numbers. Codes and times are natural numbers; a time is in nanoseconds. A duration is a signed integer.
-- Python's integers have no bounds, so nothing wraps around. Floating point numbers are an abstract type
-- with the operations of the interface FloatOps, so a proof holds of doubles with their rounding, their
-- infinities and NaN, and the rounding of a float32 field; where a theorem needs laws, they are the hypothesis IsFloat. Ros.Fixed is an
-- instance, in thousandths with a NaN, which shows that the laws can hold and on which the tests run.
--
-- Loops and fuel. Loops over lists are recursive functions. The one loop whose end is not evident is that
-- of advance_progress: it runs on fuel, a result out_of_fuel says that it did not end, and theorems say
-- how much is enough, or that no fuel is. The digits of str(n) have n + 1 units of fuel; a number has no
-- more digits than that. The threads of the keyboard node run for any list of steps,
-- and its whole calls are the lists in which no call overlaps another. The milliseconds in the
-- report on a bag are exact for gaps below 2 ^ 50 nanoseconds, thirteen days.
--
-- Parameters. What is not code of the repository is an argument: the clock, the ROS parameters, the
-- identifiers of uuid4, the document that a plan file holds, and Python's float(x) on it; for a bag, what is
-- stored in it and the functions of ROS that find a message type by its name and deserialise a message;
-- for a launch file, the texts that its arguments stand for, the test of a condition, which may raise, and
-- which values convert to the type of their parameter.
--
-- Not modelled: the creation of publishers, subscriptions and timers, the main functions of the nodes and
-- logging, which are wiring of ROS; the delivery of messages between nodes, of which Runtime takes only
-- that a topic keeps its order for a subscriber and may lose its oldest messages; the terminal of the
-- keyboard node and the reader of bags; package metadata.
pub mod Common
pub mod Ros
pub mod Msgs
pub mod SafetyManager
pub mod CommandArbiter
pub mod ModeManager
pub mod HardwareAdapter
pub mod Locomotion
pub mod Nav2Bridge
pub mod Policy
pub mod SkillServer
pub mod Diagnostics
pub mod Teleop
pub mod CapabilityRegistry
pub mod BagEvaluator
pub mod MockRobot
pub mod Launch
pub mod Runtime
