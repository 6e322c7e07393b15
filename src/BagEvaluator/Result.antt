-- ===== src/BagEvaluator/Result.antt =====
-- evaluator.py, lines 47 to 62, 111 to 137 and 156 to 174: what the evaluation makes of the tables of
-- the loop.
use huma_ware.Common.{
  ℕ, ◌-◌, String, not, Option, none, some, List, [], ◌∷◌, ◌++◌, ltb, if◌then◌else◌,
}
use huma_ware.Common.Int.{ℤ, pos, ltb_ℤ}
use huma_ware.Common.Dict.{Dict}
use huma_ware.Common.Sort.{sorted}
use huma_ware.BagEvaluator.Topics.{required_topic_present}
use huma_ware.BagEvaluator.Walk.{Sample, TopicSummary, TransitionEvent, Walk, start, walk}

pub record EvaluationResult : Type 0 where
  pub summaries : Dict String TopicSummary
  pub transitions : List TransitionEvent
  pub missing_required_topics : List String
  pub stale_topics : List String

-- `list(summaries)`: the keys, in order.
abbrev pub keys : {V : Type 0} → Dict String V → List String
keys [] = []
keys ((k, v) ∷ d) = k ∷ keys d

abbrev pub cons_some : Option ℕ → List ℕ → List ℕ
cons_some none xs = xs
cons_some (some x) xs = x ∷ xs

-- `[s.first_timestamp_ns for s in summaries.values() if s.first_timestamp_ns is not None]`
unfoldable pub firsts : Dict String TopicSummary → List ℕ
firsts [] = []
firsts ((_, s) ∷ d) = cons_some s.first_timestamp_ns (firsts d)

unfoldable pub lasts : Dict String TopicSummary → List ℕ
lasts [] = []
lasts ((_, s) ∷ d) = cons_some s.last_timestamp_ns (lasts d)

abbrev smaller_of : ℕ → Option ℕ → ℕ
smaller_of x none = x
smaller_of x (some y) = if ltb y x then y else x

abbrev larger_of : ℕ → Option ℕ → ℕ
larger_of x none = x
larger_of x (some y) = if ltb x y then y else x

-- `min(xs) if xs else None`, and `max`.
unfoldable pub minimum : List ℕ → Option ℕ
minimum [] = none
minimum (x ∷ xs) = some (smaller_of x (minimum xs))

unfoldable pub maximum : List ℕ → Option ℕ
maximum [] = none
maximum (x ∷ xs) = some (larger_of x (maximum xs))

-- The silence between an earlier time and a later one, where both are there.
abbrev pub silence : Option ℕ → Option ℕ → List ℕ
silence (some earlier) (some later) = (later - earlier) ∷ []
silence _ _ = []

-- `max(gaps)`, where `gap` is the first of them.
abbrev pub max_from : ℕ → List ℕ → ℕ
max_from gap [] = gap
max_from gap (x ∷ xs) = larger_of x (some (max_from gap xs))

-- Neither difference is negative: the recording starts with the first of the first times and ends
-- with the last of the last ones.
unfoldable pub coverage_gap : TopicSummary → Option ℕ → Option ℕ → ℕ
coverage_gap s recording_start recording_end =
    max_from s.max_gap_ns
      (silence recording_start s.first_timestamp_ns ++ silence s.last_timestamp_ns recording_end)

unfoldable pub with_coverage :
    Option ℕ → Option ℕ → Dict String TopicSummary → Dict String TopicSummary
unfolding coverage_gap
with_coverage recording_start recording_end [] = []
with_coverage recording_start recording_end ((topic, s) ∷ d) =
    (topic, record s { coverage_gap_ns = coverage_gap s recording_start recording_end })
    ∷ with_coverage recording_start recording_end d

-- The topics whose coverage gap is too large, in the order of the dictionary.
unfoldable pub over : ℤ → Dict String TopicSummary → List String
over max_gap_ns [] = []
over max_gap_ns ((topic, s) ∷ d) =
    if ltb_ℤ max_gap_ns (pos s.coverage_gap_ns)
    then topic ∷ over max_gap_ns d
    else over max_gap_ns d

unfoldable pub missing : List String → List String → List String
missing [] observed_topics = []
missing (topic ∷ required) observed_topics =
    if not (required_topic_present topic observed_topics)
    then topic ∷ missing required observed_topics
    else missing required observed_topics

unfoldable pub result_of : List String → ℤ → Walk → EvaluationResult
unfolding firsts lasts minimum maximum with_coverage over missing
result_of required_topics max_gap_ns w =
    let covered =
      with_coverage (minimum (firsts w.summaries)) (maximum (lasts w.summaries)) w.summaries in
    record {
      summaries = covered;
      transitions = w.transitions;
      missing_required_topics = missing required_topics (keys w.summaries);
      stale_topics = sorted (over max_gap_ns covered);
    }

unfoldable pub summarize_topic_freshness : List Sample → List String → ℤ → EvaluationResult
unfolding result_of
summarize_topic_freshness messages required_topics max_gap_ns =
    result_of required_topics max_gap_ns (walk messages start)
