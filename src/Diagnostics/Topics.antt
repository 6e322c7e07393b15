-- ===== src/Diagnostics/Topics.antt =====
-- diagnostics_aggregator_node.py, lines 26 to 123: the monitored topics, staleness, and health.
use huma_ware.Common.{
  ℕ, String, Bool, true, ◌||◌, Option, none, some, List, [], ◌∷◌, ◌++◌, ◌==◌, elem, is_nonempty,
  if◌then◌else◌,
}
use huma_ware.Common.Dict.{Dict, get, text_key}
use huma_ware.Ros.Time.{Time, Duration, older_than}
use huma_ware.Msgs.SafetyState
use huma_ware.Msgs.LocomotionState
use huma_ware.Msgs.HealthState.{health_ok, health_warn, health_error, health_stale}

-- `M` is the type of the messages.
pub record TopicSample (M : Type 0) : Type 0 where
  pub message : Option M
  pub received_at : Option Time

abbrev pub base_required_topics : List String
base_required_topics =
    "mode/state" ∷ "safety/state" ∷ "safety/mrm_state" ∷ "locomotion/state"
    ∷ "runtime/command_arbitration_state" ∷ []

abbrev pub when : Bool → String → List String
when b topic = if b then topic ∷ [] else []

unfoldable pub required_topics : Bool → Bool → List String
required_topics monitor_nav2_bridge monitor_teleop_heartbeat =
    (base_required_topics ++ when monitor_nav2_bridge "navigation/nav2_bridge_state")
    ++ when monitor_teleop_heartbeat "teleop/heartbeat"

unfoldable pub diagnostic_topic_list : Bool → Bool → Bool → Bool → List String
diagnostic_topic_list monitor_nav2_bridge monitor_teleop_heartbeat nav2_seen teleop_seen =
    (base_required_topics ++ when (monitor_nav2_bridge || nav2_seen) "navigation/nav2_bridge_state")
    ++ when (monitor_teleop_heartbeat || teleop_seen) "teleop/heartbeat"

abbrev pub is_stale_since : Time → Duration → Option Time → Bool
is_stale_since now timeout none = true
is_stale_since now timeout (some received_at) = older_than now received_at timeout

module _ {M : Type 0} where
  -- The sample is missing, was not received yet, or is older than the timeout.
  abbrev pub is_stale : Time → Duration → Option (TopicSample M) → Bool
  is_stale now timeout none = true
  is_stale now timeout (some sample) = is_stale_since now timeout sample.received_at

  unfoldable pub compute_stale_topics :
      Dict String (TopicSample M) → List String → Time → Duration → List String
  compute_stale_topics samples [] now timeout = []
  compute_stale_topics samples (topic ∷ topics) now timeout =
      let rest = compute_stale_topics samples topics now timeout in
      if is_stale now timeout (get topic samples) then topic ∷ rest else rest

unfoldable pub evaluate_health : ℕ → ℕ → List String → List String → List String → ℕ × String
evaluate_health safety_state locomotion_state active_faults active_warnings stale_topics =
    if is_nonempty stale_topics
    then (health_stale, "stale runtime topics")
    else if elem safety_state
        (SafetyState.state_fault ∷ SafetyState.state_estop ∷ SafetyState.state_mrm ∷ [])
    then (health_error, "safety state requires intervention")
    else if locomotion_state == LocomotionState.state_fault
    then (health_error, "locomotion fault")
    else if is_nonempty active_faults
    then (health_error, "active faults")
    else if (safety_state == SafetyState.state_warn) || is_nonempty active_warnings
    then (health_warn, "active warnings")
    else (health_ok, "runtime healthy")
