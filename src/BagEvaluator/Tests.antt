-- ===== src/BagEvaluator/Tests.antt =====
-- The bag evaluator of src/humaware_tools at concrete inputs.
use Prim.Native.String.{◌++◌ as concat}
use huma_ware.Common.{
  arith, eq_iff, ℕ, ◌≡◌, refl, ◌↔◌, String, none, some, List, [], ◌∷◌, str_eq, In, if◌then◌else◌,
}
use huma_ware.Common.Int.{pos}
use huma_ware.Common.Dict.{get, put, text_key}
use huma_ware.Common.Sort.{sorted, IsAscending}
use huma_ware.Common.Text.{str}
use huma_ware.BagEvaluator.Topics.{lstrip, after_slash, normalize_topic, watched_fields}
use huma_ware.BagEvaluator.Names.{normalize_topic-namespace}
use huma_ware.BagEvaluator.Walk.{number, Message, Sample, updated, watch, count, observe, walk}
use huma_ware.BagEvaluator.Result.{
  firsts, lasts, minimum, maximum, coverage_gap, with_coverage, over, result_of,
  summarize_topic_freshness,
}
use huma_ware.BagEvaluator.Silence.{IsSilent, summarize_topic_freshness-IsSilent}
use huma_ware.BagEvaluator.Readings.{of_field, changes, readings}
use huma_ware.BagEvaluator.Changes.{watched_readings, summarize_topic_freshness-changes}
use huma_ware.BagEvaluator.Cli.{Bag, Ros, type_by_topic, samples, read_messages, main}
use huma_ware.BagEvaluator.Report.{format_ms}
use huma_ware.BagEvaluator.Outcome.{IsHealthy, main-IsHealthy}

abbrev state_message : ℕ → Message
state_message n field = if str_eq field "state" then some (number n) else none

abbrev ros : Ros ℕ String
ros = record {
  get_message = λ name. if str_eq name "" then none else some name;
  deserialize_message = λ n t. if str_eq t "broken" then none else some (state_message n);
}

abbrev bag : Bag ℕ
bag = record {
  topics =
      record { name = "/r/safety/state"; type = "SafetyState" }
      ∷ record { name = "/r/other"; type = "broken" }
      ∷ [];
  stored =
      record { topic = "/r/safety/state"; bytes = 1; timestamp_ns = 10 }
      ∷ record { topic = "/r/other"; bytes = 1; timestamp_ns = 11 }
      ∷ record { topic = "/r/safety/state"; bytes = 2; timestamp_ns = 20 }
      ∷ record { topic = "untyped"; bytes = 2; timestamp_ns = 21 }
      ∷ [];
}

abbrev messages : List Sample
messages =
    record { topic = "/r/safety/state"; timestamp_ns = 10; message = state_message 1 }
    ∷ record { topic = "/r/safety/state"; timestamp_ns = 20; message = state_message 2 }
    ∷ []

reads_typed : read_messages ros bag ≡ some messages
unfolding read_messages type_by_topic samples get put
reads_typed = refl

main-IsHealthy_example :
    (text : String) × (code : ℕ) × (main ros bag (pos 5) ≡ some (text, code))
    × ((code ≡ 0) ↔ IsHealthy 5 messages)
main-IsHealthy_example = main-IsHealthy ros bag 5 messages reads_typed

reports_stale :
    (summarize_topic_freshness messages ("mode/state" ∷ []) (pos 5)).stale_topics
    ≡ "/r/safety/state" ∷ []
unfolding summarize_topic_freshness result_of walk observe count watch updated firsts lasts minimum
    maximum coverage_gap with_coverage over sorted get put watched_fields
reports_stale = refl

summarize_topic_freshness-IsSilent_example :
    let r = summarize_topic_freshness messages ("mode/state" ∷ []) (pos 5) in
    (In {A = String} "/r/safety/state" r.stale_topics ↔ IsSilent 5 "/r/safety/state" messages)
    × IsAscending r.stale_topics
summarize_topic_freshness-IsSilent_example =
    summarize_topic_freshness-IsSilent 5 "/r/safety/state" messages ("mode/state" ∷ [])

summarize_topic_freshness-changes_example :
    of_field "/r/safety/state" "state" (summarize_topic_freshness messages [] (pos 5)).transitions
    ≡ changes "/r/safety/state" "state" (watched_readings "/r/safety/state" "state" messages)
summarize_topic_freshness-changes_example =
    summarize_topic_freshness-changes "/r/safety/state" "state" messages [] (pos 5)

one_change :
    changes "/r/safety/state" "state" (watched_readings "/r/safety/state" "state" messages)
    ≡ record {
      topic = "/r/safety/state";
      field_name = "state";
      previous = number 1;
      current = number 2;
      timestamp_ns = 20;
    }
      ∷ []
unfolding readings watched_fields normalize_topic lstrip after_slash get
one_change = refl

normalize_topic-namespace_example :
    normalize_topic (concat "/" (concat "mock_001" (concat "/" "safety/state"))) ≡ "safety/state"
unfolding get
normalize_topic-namespace_example =
    normalize_topic-namespace "/" "mock_001" "safety/state" (refl, tt)
      (
        (refl, (refl, (refl, (refl, (refl, (refl, (refl, (refl, tt)))))))),
        λ e. ground (arith, (eq_iff "mock_001" "").1 e),
      )
      refl

-- An exact half goes to the even neighbour.
half_to_even : (format_ms 2500000 ≡ "2") × (format_ms 3500000 ≡ "4")
unfolding format_ms str
half_to_even = (refl, refl)
