-- ===== src/Diagnostics/Tests.antt =====
-- diagnostics_aggregator_node.py at concrete inputs.
use huma_ware.Common.{◌≡◌, refl, ◌↔◌, true, false, [], ◌∷◌, In}
use huma_ware.Common.Int.{pos}
use huma_ware.Common.Dict.{get, put, text_key}
use huma_ware.Ros.Fixed.{Fixed}
use huma_ware.Diagnostics.Topics.{required_topics, compute_stale_topics}
use huma_ware.Diagnostics.Node.{
  heartbeat, Params, Samples, init, on_topic, publish, stale_topics, build_health,
}
use huma_ware.Diagnostics.Health.{Assessed, publish-Assessed}
use huma_ware.Diagnostics.Coverage.{IsStale, Reports, publish-covers}

abbrev params : Params
params = record {
  robot_id = "mock_001";
  stale_timeout = pos 1_500;
  monitor_nav2_bridge = false;
  monitor_teleop_heartbeat = true;
}

abbrev samples : Samples Fixed
samples =
    on_topic "teleop/heartbeat" (heartbeat (record { stamp = 90; frame_id = "" })) 100
      (init {F = Fixed})

missing_topics :
    (publish params 200 samples).0.stale_topics
    ≡ "mode/state" ∷ "safety/state" ∷ "safety/mrm_state" ∷ "locomotion/state"
      ∷ "runtime/command_arbitration_state" ∷ []
unfolding publish build_health stale_topics compute_stale_topics required_topics on_topic get put
missing_topics = refl

publish-Assessed_example : Assessed (publish params 200 samples).0
publish-Assessed_example = publish-Assessed params 200 samples

publish-covers_example :
    (In "teleop/heartbeat" (publish params 1_700 samples).0.stale_topics ↔ (
      In "teleop/heartbeat" (required_topics false true)
      × IsStale 1_700 params.stale_timeout (get "teleop/heartbeat" samples)))
    × (In "teleop/heartbeat" (publish params 1_700 samples).0.stale_topics
        → Reports params (publish params 1_700 samples).1 "teleop/heartbeat")
publish-covers_example = publish-covers params 1_700 samples "teleop/heartbeat"
