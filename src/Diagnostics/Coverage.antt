-- ===== src/Diagnostics/Coverage.antt =====
-- That the diagnostics of diagnostics_aggregator_node.py report each topic that makes the health stale.
use Prim.Native.String.{◌++◌ as concat}
use huma_ware.Common.{
  Option, none, some, String, ◌≡◌, refl, ap, ◌↔◌, inl, inr, Bool, true, List, [], ◌∷◌, map, arith,
  elem_str, In, eq_iff,
}
use huma_ware.Common.Dict.{Dict, get, text_key}
use huma_ware.Common.Int.{ltb_ℤ}
use huma_ware.Ros.Time.{Time, Duration, since}
use huma_ware.Ros.Diagnostics.{DiagnosticStatus, DiagnosticArray, level_stale}
use huma_ware.Diagnostics.Topics.{
  TopicSample, required_topics, diagnostic_topic_list, is_stale, compute_stale_topics,
}
use huma_ware.Diagnostics.Node.{
  Params, Samples, has_seen, stale_topics, topic_status, build_health, publish,
}

In-map : {A B : Type 0} (f : A → B) (a : A) (xs : List A) → In a xs → In (f a) (map f xs)
In-map f a [] h = h
In-map f a (x ∷ xs) (inl e) = inl (ap f e)
In-map f a (x ∷ xs) (inr h) = inr (In-map f a xs h)

elem_str-In : (t : String) (xs : List String) → (elem_str t xs ≡ true) ↔ In t xs
elem_str-In t [] = ground arith
elem_str-In t (x ∷ xs) = ground (arith, eq_iff t x, elem_str-In t xs)

required_topics-diagnostic_topic_list :
    (nav2 teleop nav2_seen teleop_seen : Bool) (t : String)
    → In t (required_topics nav2 teleop)
    → In t (diagnostic_topic_list nav2 teleop nav2_seen teleop_seen)
unfolding required_topics diagnostic_topic_list
required_topics-diagnostic_topic_list nav2 teleop nav2_seen teleop_seen t h = ground arith

-- Never received, or received longer ago than the timeout.
abbrev IsStaleSince : Time → Duration → Option Time → Type 0
IsStaleSince now timeout none = Unit
IsStaleSince now timeout (some received_at) = ltb_ℤ timeout (since now received_at) ≡ true

module _ {M : Type 0} where
  -- There is no sample of the topic, or the sample is stale.
  abbrev pub IsStale : Time → Duration → Option (TopicSample M) → Type 0
  IsStale now timeout none = Unit
  IsStale now timeout (some sample) = IsStaleSince now timeout sample.received_at

  is_stale-IsStale :
      (now : Time) (timeout : Duration) (sample : Option (TopicSample M))
      → (is_stale now timeout sample ≡ true) ↔ IsStale now timeout sample
  is_stale-IsStale now timeout sample = ground arith

  compute_stale_topics-In :
      (samples : Dict String (TopicSample M)) (topics : List String) (now : Time)
      (timeout : Duration) (t : String)
      → In t (compute_stale_topics samples topics now timeout)
        ↔ (In t topics × IsStale now timeout (get t samples))
  unfolding compute_stale_topics
  compute_stale_topics-In samples [] now timeout t = ground arith
  compute_stale_topics-In samples (x ∷ xs) now timeout t = ground (
    arith,
    is_stale-IsStale now timeout (get x samples),
    is_stale-IsStale now timeout (get t samples),
    compute_stale_topics-In samples xs now timeout t,
  )

-- A status of the array is named for the topic, and its level is STALE.
abbrev pub Reports : Params → DiagnosticArray → String → Type 0
Reports p array t =
    (status : DiagnosticStatus) × In status array.status
    × (status.name ≡ concat p.robot_id (concat "/" t))
    × (status.level ≡ level_stale)

module _ {F : Type 0} (p : Params) (now : Time) (samples : Samples F) where
  topic_status-level :
      (stale : List String) (t : String)
      → In t stale
      → (topic_status p samples stale t).level ≡ level_stale
  unfolding topic_status
  topic_status-level stale t h =
      let there : elem_str t stale ≡ true = (elem_str-In t stale).1 h in rw there

  stale_topics-In :
      (t : String)
      → In t (stale_topics p now samples) ↔ (
          In t (required_topics p.monitor_nav2_bridge p.monitor_teleop_heartbeat)
          × IsStale now p.stale_timeout (get t samples))
  unfolding stale_topics
  stale_topics-In t =
      compute_stale_topics-In samples
        (required_topics p.monitor_nav2_bridge p.monitor_teleop_heartbeat) now p.stale_timeout t

  publish-Reports :
      (t : String) → In t (stale_topics p now samples) → Reports p (publish p now samples).1 t
  unfolding publish topic_status
  publish-Reports t h = (
    topic_status p samples (stale_topics p now samples) t,
    inr (
        In-map (topic_status p samples (stale_topics p now samples)) t
          (diagnostic_topic_list p.monitor_nav2_bridge p.monitor_teleop_heartbeat
            (has_seen "navigation/nav2_bridge_state" samples) (has_seen "teleop/heartbeat" samples))
          (required_topics-diagnostic_topic_list p.monitor_nav2_bridge p.monitor_teleop_heartbeat
            (has_seen "navigation/nav2_bridge_state" samples) (has_seen "teleop/heartbeat" samples)
            t ((stale_topics-In t).0 h).0)),
    refl,
    topic_status-level (stale_topics p now samples) t h,
  )

  -- The published health lists a topic as stale exactly when it is a required one whose sample is
  -- missing, not received yet, or received longer ago than the timeout; and the diagnostics published with it hold a
  -- status of level STALE for each listed topic.
  pub publish-covers :
      (t : String)
      → (In t (publish p now samples).0.stale_topics ↔ (
          In t (required_topics p.monitor_nav2_bridge p.monitor_teleop_heartbeat)
          × IsStale now p.stale_timeout (get t samples)))
        × (In t (publish p now samples).0.stale_topics → Reports p (publish p now samples).1 t)
  unfolding publish build_health
  publish-covers t = (stale_topics-In t, publish-Reports t)
