-- ===== src/MockRobot/Tests.antt =====
-- mock_robot_node.py at concrete inputs.
use huma_ware.Common.{◌≡◌, refl, List, [], ◌∷◌}
use huma_ware.Common.Int.{pos}
use huma_ware.Ros.Fixed.{Fixed, milli}
use huma_ware.Msgs.ModeState.{mode_teleop, mode_autonomy}
use huma_ware.Msgs.SafetyState.{state_ok}
use huma_ware.MockRobot.Node.{Params, init, publish_state}
use huma_ware.MockRobot.Mirror.{Event, mode_state, safety_state, run}

abbrev params : Params Fixed
params = record { robot_id = "mock_001"; battery_percentage = milli (pos 100_000) }

abbrev events : List Event
events = mode_state mode_teleop ∷ safety_state state_ok ∷ mode_state mode_autonomy ∷ []

last_mode_shown :
    (publish_state (λ n. milli (pos n)) params 5 (run events init)).2.mode ≡ mode_autonomy
unfolding publish_state run
last_mode_shown = refl
