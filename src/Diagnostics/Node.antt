-- ===== src/Diagnostics/Node.antt =====
-- diagnostics_aggregator_node.py, lines 126 to 323: the node's state, its callback and what it
-- publishes. `self._samples` has every topic from the start, so a lookup in it never fails.
use Prim.Native.String.{◌++◌ as concat}
use huma_ware.Common.{
  ℕ, String, Bool, false, Option, none, some, List, [], ◌∷◌, map, ◌==◌, elem_str, is_some,
  if◌then◌else◌,
}
use huma_ware.Common.Dict.{Dict, get, put, text_key}
use huma_ware.Common.Text.{str, str_bool, join}
use huma_ware.Ros.Time.{Time, Duration}
use huma_ware.Ros.Twist.{Header}
use huma_ware.Ros.Diagnostics.{
  KeyValue, DiagnosticStatus, DiagnosticArray, level_ok, level_warn, level_error, level_stale,
}
use huma_ware.Msgs.ModeState.{ModeState, mode_unknown}
use huma_ware.Msgs.ModeTransitionState.{ModeTransitionState}
use huma_ware.Msgs.SafetyState
use huma_ware.Msgs.SafetyState.{SafetyState}
use huma_ware.Msgs.MrmState.{MrmState}
use huma_ware.Msgs.LocomotionState
use huma_ware.Msgs.LocomotionState.{LocomotionState}
use huma_ware.Msgs.CommandArbitrationState.{CommandArbitrationState, source_none}
use huma_ware.Msgs.NavigationBridgeState
use huma_ware.Msgs.NavigationBridgeState.{NavigationBridgeState}
use huma_ware.Msgs.HealthState.{HealthState, health_ok, health_warn, health_error}
use huma_ware.Diagnostics.Topics.{
  TopicSample, required_topics, diagnostic_topic_list, compute_stale_topics, evaluate_health,
}

-- The messages of the eight subscriptions.
pub data Message (F : Type 0) : Type 0 where
  mode : ModeState → Message F
  transition : ModeTransitionState → Message F
  safety : SafetyState → Message F
  mrm : MrmState → Message F
  locomotion : LocomotionState F → Message F
  command : CommandArbitrationState → Message F
  nav2 : NavigationBridgeState → Message F
  heartbeat : Header → Message F

pub record Params : Type 0 where
  pub robot_id : String
  pub stale_timeout : Duration
  pub monitor_nav2_bridge : Bool
  pub monitor_teleop_heartbeat : Bool

abbrev pub Samples : Type 0 → Type 0
Samples F = Dict String (TopicSample (Message F))

abbrev pub kv : String → String → KeyValue
kv key value = record { key = key; value = value }

unfoldable pub diagnostic_level : ℕ → ℕ
diagnostic_level state =
    if state == health_ok
    then level_ok
    else if state == health_warn
    then level_warn
    else if state == health_error
    then level_error
    else level_stale

unfoldable pub runtime_status : HealthState → DiagnosticStatus
unfolding join diagnostic_level
runtime_status health = record {
  name = concat health.robot_id "/runtime_health";
  hardware_id = health.robot_id;
  level = diagnostic_level health.state;
  message = health.summary;
  values =
      kv "mode" (str health.mode)
      ∷ kv "safety_state" (str health.safety_state)
      ∷ kv "locomotion_state" (str health.locomotion_state)
      ∷ kv "command_source" (str health.command_source)
      ∷ kv "nav2_bridge_state" (str health.nav2_bridge_state)
      ∷ kv "command_output_enabled" (str_bool health.command_output_enabled)
      ∷ kv "nav2_output_enabled" (str_bool health.nav2_output_enabled)
      ∷ kv "stale_topics" (join "," health.stale_topics)
      ∷ kv "active_warnings" (join "," health.active_warnings)
      ∷ kv "active_faults" (join "," health.active_faults)
      ∷ [];
}

module _ {F : Type 0} where
  abbrev pub empty_sample : TopicSample (Message F)
  empty_sample = record { message = none; received_at = none }

  abbrev pub init : Samples F
  init =
      ("mode/state", empty_sample)
      ∷ ("mode/transition_state", empty_sample)
      ∷ ("safety/state", empty_sample)
      ∷ ("safety/mrm_state", empty_sample)
      ∷ ("locomotion/state", empty_sample)
      ∷ ("runtime/command_arbitration_state", empty_sample)
      ∷ ("navigation/nav2_bridge_state", empty_sample)
      ∷ ("teleop/heartbeat", empty_sample)
      ∷ []

  unfoldable pub on_topic : String → Message F → Time → Samples F → Samples F
  on_topic topic msg now samples =
      put topic (record { message = some msg; received_at = some now }) samples

  abbrev pub sample : Option (TopicSample (Message F)) → TopicSample (Message F)
  sample none = empty_sample
  sample (some s) = s

  abbrev pub has_seen : String → Samples F → Bool
  has_seen topic samples = is_some (sample (get topic samples)).received_at

  unfoldable pub stale_topics : Params → Time → Samples F → List String
  stale_topics p now samples =
      compute_stale_topics samples
        (required_topics p.monitor_nav2_bridge p.monitor_teleop_heartbeat) now p.stale_timeout

  -- `self._message(topic, type)`, for each of the five types that the health is built from.
  abbrev pub as_mode : Option (Message F) → Option ModeState
  as_mode (some (mode m)) = some m
  as_mode _ = none

  abbrev pub as_safety : Option (Message F) → Option SafetyState
  as_safety (some (safety m)) = some m
  as_safety _ = none

  abbrev pub as_locomotion : Option (Message F) → Option (LocomotionState F)
  as_locomotion (some (locomotion m)) = some m
  as_locomotion _ = none

  abbrev pub as_command : Option (Message F) → Option CommandArbitrationState
  as_command (some (command m)) = some m
  as_command _ = none

  abbrev pub as_nav2 : Option (Message F) → Option NavigationBridgeState
  as_nav2 (some (nav2 m)) = some m
  as_nav2 _ = none

  abbrev pub message : String → Samples F → Option (Message F)
  message topic samples = (sample (get topic samples)).message

abbrev pub read : {A B : Type 0} → (A → B) → B → Option A → B
read f default none = default
read f default (some a) = f a

module _ {F : Type 0} where
  unfoldable pub build_health : Params → Time → Samples F → List String → HealthState
  build_health p now samples stale =
      let m = as_mode (message "mode/state" samples) in
      let s = as_safety (message "safety/state" samples) in
      let l = as_locomotion (message "locomotion/state" samples) in
      let c = as_command (message "runtime/command_arbitration_state" samples) in
      let n = as_nav2 (message "navigation/nav2_bridge_state" samples) in
      let safety_state = read (λ x. x.state) SafetyState.state_unknown s in
      let locomotion_state = read (λ x. x.state) LocomotionState.state_unknown l in
      let faults = read (λ x. x.active_faults) [] s in
      let warnings = read (λ x. x.active_warnings) [] s in
      let (state, summary) = evaluate_health safety_state locomotion_state faults warnings stale in
      record {
        header = record { stamp = now; frame_id = p.robot_id };
        robot_id = p.robot_id;
        state = state;
        summary = summary;
        mode = read (λ x. x.active_mode) mode_unknown m;
        safety_state = safety_state;
        locomotion_state = locomotion_state;
        command_source = read (λ x. x.active_source) source_none c;
        nav2_bridge_state = read (λ x. x.state) NavigationBridgeState.state_unknown n;
        command_output_enabled = read (λ x. x.output_enabled) false c;
        nav2_output_enabled = read (λ x. x.output_enabled) false n;
        active_faults = faults;
        active_warnings = warnings;
        stale_topics = stale;
      }

  unfoldable pub topic_status : Params → Samples F → List String → String → DiagnosticStatus
  topic_status p samples stale topic =
      let seen = has_seen topic samples in
      record {
        name = concat p.robot_id (concat "/" topic);
        hardware_id = p.robot_id;
        level = if elem_str topic stale then level_stale else level_ok;
        message = if elem_str topic stale then (if seen then "stale" else "missing") else "ok";
        values = kv "topic" topic ∷ kv "seen" (str_bool seen) ∷ [];
      }

  unfoldable pub build_diagnostics :
      Params → Time → Samples F → HealthState → List String → DiagnosticArray
  unfolding runtime_status topic_status
  build_diagnostics p now samples health stale = record {
    stamp = now;
    status =
        runtime_status health
        ∷ map (topic_status p samples stale) (
            diagnostic_topic_list p.monitor_nav2_bridge p.monitor_teleop_heartbeat
              (has_seen "navigation/nav2_bridge_state" samples)
              (has_seen "teleop/heartbeat" samples));
  }

  unfoldable pub publish : Params → Time → Samples F → HealthState × DiagnosticArray
  unfolding stale_topics build_health build_diagnostics
  publish p now samples =
      let stale = stale_topics p now samples in
      let health = build_health p now samples stale in
      (health, build_diagnostics p now samples health stale)
