-- ===== src/BagEvaluator/Walk.antt =====
-- evaluator.py, lines 24 to 44 and 77 to 109: the loop over the messages of a bag. Timestamps are
-- nanoseconds and not negative; a gap is written as the test of the later time against the earlier
-- one plus the largest gap, so that no difference of the code is negative here.
use huma_ware.Common.{
  ℕ, ◌+◌, ◌-◌, ◌≡◌, ◌↔◌, String, Bool, true, false, ◌&&◌, not, Option, none, some, List, [], ◌∷◌,
  arith, append, ltb, ◌==◌, str_eq, eq_iff, if◌then◌else◌,
}
use huma_ware.Common.Dict.{Dict, Eq, get, put, text_key}
use huma_ware.BagEvaluator.Topics.{watched_fields}

-- What a watched field holds. Python's `True` and `False` are the integers 1 and 0.
pub data Value : Type 0 where
  number : ℕ → Value
  flag : Bool → Value

abbrev pub as_number : Value → ℕ
as_number (number n) = n
as_number (flag true) = 1
as_number (flag false) = 0

-- `a == b`
abbrev pub value_eq : Value → Value → Bool
value_eq a b = as_number a == as_number b

-- A message as `getattr(message, field_name, None)` reads it.
abbrev pub Message : Type 0
Message = String → Option Value

pub record Sample : Type 0 where
  pub topic : String
  pub timestamp_ns : ℕ
  pub message : Message

pub record TopicSummary : Type 0 where
  pub topic : String
  pub message_count : ℕ
  pub first_timestamp_ns : Option ℕ
  pub last_timestamp_ns : Option ℕ
  pub max_gap_ns : ℕ
  pub coverage_gap_ns : ℕ

pub record TransitionEvent : Type 0 where
  pub topic : String
  pub field_name : String
  pub previous : Value
  pub current : Value
  pub timestamp_ns : ℕ

-- The keys of `previous_values` are pairs of a topic and a field.
abbrev pub Key : Type 0
Key = String × String

abbrev pub key_eq : Key → Key → Bool
key_eq a b = str_eq a.0 b.0 && str_eq a.1 b.1

pub key_eq_iff : (a b : Key) → (key_eq a b ≡ true) ↔ (a ≡ b)
key_eq_iff (a, b) (c, d) = ground (arith, eq_iff a c, eq_iff b d)

instance abbrev pub pair_key : Eq Key
pair_key = record { beq = key_eq; beq_iff = key_eq_iff }

-- The local variables of the loop.
pub record Walk : Type 0 where
  pub summaries : Dict String TopicSummary
  pub last_timestamp : Dict String ℕ
  pub transitions : List TransitionEvent
  pub previous_values : Dict Key Value

abbrev pub new_summary : String → TopicSummary
new_summary topic = record {
  topic = topic;
  message_count = 0;
  first_timestamp_ns = none;
  last_timestamp_ns = none;
  max_gap_ns = 0;
  coverage_gap_ns = 0;
}

-- `summaries.setdefault(topic, TopicSummary(topic=topic))`
abbrev pub or_new : String → Option TopicSummary → TopicSummary
or_new topic none = new_summary topic
or_new topic (some summary) = summary

abbrev pub first_or : ℕ → Option ℕ → Option ℕ
first_or t none = some t
first_or t (some first) = some first

-- `gap = timestamp_ns - last_timestamp[topic]`, where the topic was seen, raises the largest gap.
abbrev pub raised : ℕ → Option ℕ → ℕ → ℕ
raised t none max_gap = max_gap
raised t (some last) max_gap = if ltb (last + max_gap) t then t - last else max_gap

unfoldable pub updated : ℕ → Option ℕ → TopicSummary → TopicSummary
updated t last s = record s {
  message_count = s.message_count + 1;
  first_timestamp_ns = first_or t s.first_timestamp_ns;
  max_gap_ns = raised t last s.max_gap_ns;
  last_timestamp_ns = some t;
}

-- The event of a field, if its value differs from the one before.
abbrev pub event :
    String → String → ℕ → Value → Option Value → List TransitionEvent → List TransitionEvent
event topic field_name t current none events = events
event topic field_name t current (some previous) events =
    if not (value_eq previous current)
    then append events (record {
      topic = topic;
      field_name = field_name;
      previous = previous;
      current = current;
      timestamp_ns = t;
    })
    else events

-- The body of the loop over the watched fields.
unfoldable pub watch_value : String → ℕ → String → Option Value → Walk → Walk
watch_value topic t field_name none w = w
watch_value topic t field_name (some current) w = record w {
  transitions =
      event topic field_name t current (get (topic, field_name) w.previous_values) w.transitions;
  previous_values = put (topic, field_name) current w.previous_values;
}

unfoldable pub watch : Sample → List String → Walk → Walk
unfolding watch_value
watch m [] w = w
watch m (field_name ∷ fields) w =
    watch m fields (watch_value m.topic m.timestamp_ns field_name (m.message field_name) w)

-- The body of the loop, up to the watched fields.
unfoldable pub count : Sample → Walk → Walk
unfolding updated
count m w = record w {
  summaries =
      put m.topic
        (updated m.timestamp_ns (get m.topic w.last_timestamp)
          (or_new m.topic (get m.topic w.summaries)))
        w.summaries;
  last_timestamp = put m.topic m.timestamp_ns w.last_timestamp;
}

unfoldable pub observe : Sample → Walk → Walk
unfolding count watch
observe m w = watch m (watched_fields m.topic) (count m w)

abbrev pub start : Walk
start = record { summaries = []; last_timestamp = []; transitions = []; previous_values = [] }

unfoldable pub walk : List Sample → Walk → Walk
unfolding observe
walk [] w = w
walk (m ∷ ms) w = walk ms (observe m w)
