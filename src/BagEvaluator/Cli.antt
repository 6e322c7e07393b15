-- ===== src/BagEvaluator/Cli.antt =====
-- cli.py: the messages of a bag and the exit code of the tool. The reader of rosbag2 gives the topics
-- with their types and the stored messages in order. What turns a type's name into a type and bytes
-- into a message belongs to ROS, so it is a parameter; `none` stands for an exception. The gap on the
-- command line is taken in nanoseconds, as `int(args.max_gap_ms * 1_000_000)` gives it.
use huma_ware.Common.{
  ℕ, String, ◌||◌, Option, none, some, List, [], ◌∷◌, is_nonempty, if◌then◌else◌,
}
use huma_ware.Common.Int.{ℤ}
use huma_ware.Common.Dict.{Dict, get, put, text_key}
use huma_ware.BagEvaluator.Topics.{default_required_topics}
use huma_ware.BagEvaluator.Walk.{Message, Sample}
use huma_ware.BagEvaluator.Result.{EvaluationResult, summarize_topic_freshness}
use huma_ware.BagEvaluator.Report.{format_summary}

pub record TopicInfo : Type 0 where
  pub name : String
  pub type : String

-- `reader.read_next()`
pub record Stored (D : Type 0) : Type 0 where
  pub topic : String
  pub bytes : D
  pub timestamp_ns : ℕ

pub record Bag (D : Type 0) : Type 0 where
  pub topics : List TopicInfo
  pub stored : List (Stored D)

-- `get_message` and `deserialize_message`.
pub record Ros (D T : Type 0) : Type 0 where
  pub get_message : String → Option T
  pub deserialize_message : D → T → Option Message

abbrev pub exit_code : EvaluationResult → ℕ
exit_code result =
    if is_nonempty result.missing_required_topics || is_nonempty result.stale_topics then 1 else 0

abbrev reported : EvaluationResult → Option String → Option (String × ℕ)
reported result none = none
reported result (some text) = some (text, exit_code result)

module _ {D T : Type 0} (ros : Ros D T) where
  -- The comprehension writes the topics in turn, so a later type stands for an earlier one.
  unfoldable pub type_by_topic : List TopicInfo → Dict String T → Option (Dict String T)
  type_by_topic [] types = some types
  type_by_topic (info ∷ infos) types = elim (ros.get_message info.type) [
    | none ↦ none
    | some t ↦ type_by_topic infos (put info.name t types)
  ]

  abbrev deserialized : D → Option T → Option Message
  deserialized bytes none = none
  deserialized bytes (some t) = ros.deserialize_message bytes t

  abbrev yielded : String → ℕ → Option Message → List Sample → List Sample
  yielded topic t none rest = rest
  yielded topic t (some m) rest = record { topic = topic; timestamp_ns = t; message = m } ∷ rest

  -- The loop of `_read_messages`.
  unfoldable pub samples : Dict String T → List (Stored D) → List Sample
  samples types [] = []
  samples types (m ∷ ms) =
      yielded m.topic m.timestamp_ns (deserialized m.bytes (get m.topic types)) (samples types ms)

  unfoldable pub read_messages : Bag D → Option (List Sample)
  unfolding type_by_topic samples
  read_messages bag = elim (type_by_topic bag.topics []) [
    | none ↦ none
    | some types ↦ some (samples types bag.stored)
  ]

  unfoldable pub evaluate_bag : Bag D → ℤ → Option EvaluationResult
  unfolding read_messages
  evaluate_bag bag max_gap_ns = elim (read_messages bag) [
    | none ↦ none
    | some ms ↦ some (summarize_topic_freshness ms default_required_topics max_gap_ns)
  ]

  -- `main`: what it prints, and its exit code.
  unfoldable pub main : Bag D → ℤ → Option (String × ℕ)
  unfolding evaluate_bag
  main bag max_gap_ns = elim (evaluate_bag bag max_gap_ns) [
    | none ↦ none
    | some result ↦ reported result (format_summary result)
  ]
