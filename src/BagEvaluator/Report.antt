-- ===== src/BagEvaluator/Report.antt =====
-- evaluator.py, lines 204 to 252: the report. A lookup of a topic that has no summary fails, as the
-- KeyError of Python does. `{ns / 1e6:.0f}` is the quotient rounded half to even: below 2 ^ 50
-- nanoseconds, thirteen days, no float between two halves rounds to a half.
use Prim.Native.String.{◌++◌ as concat}
use huma_ware.Common.{
  ℕ, ◌+◌, ◌/◌, ◌%◌, String, Option, none, some, List, [], ◌∷◌, ◌++◌, map, ltb, if◌then◌else◌,
}
use huma_ware.Common.Dict.{Dict, get, text_key}
use huma_ware.Common.Sort.{sorted}
use huma_ware.Common.Text.{str, str_bool, join}
use huma_ware.BagEvaluator.Walk.{Value, number, flag, TopicSummary, TransitionEvent}
use huma_ware.BagEvaluator.Result.{EvaluationResult, keys}

abbrev half_even : ℕ → ℕ → ℕ
half_even quotient remainder =
    if ltb remainder 500000
    then quotient
    else if ltb 500000 remainder
    then quotient + 1
    else quotient + quotient % 2

unfoldable pub format_ms : ℕ → String
format_ms ns = str (half_even (ns / 1000000) (ns % 1000000))

abbrev pub str_value : Value → String
str_value (number n) = str n
str_value (flag b) = str_bool b

-- `"=" * len(text)`
underline : String → String
underline String.[] = ""
underline (String.◌∷◌ c s) = concat "=" (underline s)

abbrev pub title : String
title = "Runtime bag evaluation summary"

unfoldable pub missing_lines : List String → List String
missing_lines [] = "All required topics present." ∷ []
missing_lines topics = "Missing required topics:" ∷ map (concat "  - ") topics

abbrev pub gap_line : String → TopicSummary → String
gap_line topic s =
    join "" ("  - " ∷ topic ∷ " (coverage gap " ∷ format_ms s.coverage_gap_ns ∷ " ms)" ∷ [])

abbrev pub count_line : String → TopicSummary → String
count_line topic s = join "" (
    "  - "
    ∷ topic
    ∷ ": "
    ∷ str s.message_count
    ∷ " messages, max gap "
    ∷ format_ms s.max_gap_ns
    ∷ " ms"
    ∷ [])

abbrev cons_line :
    (String → TopicSummary → String)
    → String
    → Option TopicSummary
    → Option (List String)
    → Option (List String)
cons_line line topic (some s) (some lines) = some (line topic s ∷ lines)
cons_line line topic _ _ = none

-- A line for each topic, with its summary looked up.
unfoldable pub topic_lines :
    (String → TopicSummary → String) → Dict String TopicSummary → List String → Option (List String)
topic_lines line summaries [] = some []
topic_lines line summaries (topic ∷ topics) =
    cons_line line topic (get topic summaries) (topic_lines line summaries topics)

abbrev after : String → Option (List String) → Option (List String)
after heading none = none
after heading (some lines) = some (heading ∷ lines)

unfoldable pub stale_lines : Dict String TopicSummary → List String → Option (List String)
unfolding topic_lines
stale_lines summaries [] = some ("No topics exceeded the configured gap threshold." ∷ [])
stale_lines summaries topics =
    after "Topics with excessive publication gaps:" (topic_lines gap_line summaries topics)

unfoldable pub count_lines : Dict String TopicSummary → Option (List String)
unfolding topic_lines
count_lines summaries =
    after "Per-topic counts:" (topic_lines count_line summaries (sorted (keys summaries)))

abbrev pub event_line : TransitionEvent → String
event_line e = join "" (
    "  - "
    ∷ e.topic
    ∷ "."
    ∷ e.field_name
    ∷ ": "
    ∷ str_value e.previous
    ∷ " -> "
    ∷ str_value e.current
    ∷ " @ "
    ∷ str e.timestamp_ns
    ∷ [])

unfoldable pub transition_lines : List TransitionEvent → List String
transition_lines [] = "No tracked state transitions observed." ∷ []
transition_lines events = "State transitions:" ∷ map event_line events

abbrev joined :
    List String → Option (List String) → Option (List String) → List String → Option String
joined missing (some stale) (some counts) transitions =
    some (join "\n" (missing ++ (stale ++ (counts ++ transitions))))
joined missing _ _ transitions = none

unfoldable pub format_summary : EvaluationResult → Option String
unfolding underline missing_lines stale_lines count_lines transition_lines
format_summary result =
    joined (title ∷ underline title ∷ missing_lines result.missing_required_topics)
      (stale_lines result.summaries result.stale_topics) (count_lines result.summaries)
      (transition_lines result.transitions)
