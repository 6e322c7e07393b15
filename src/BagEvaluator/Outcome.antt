-- ===== src/BagEvaluator/Outcome.antt =====
-- What the report and the exit code of cli.py tell of the bag.
use huma_ware.Common.{
  ℕ, ◌≡◌, refl, ◌↔◌, ◌≢◌, inl, inr, String, false, none, some, List, [], ◌∷◌, arith, In, Bool-cases,
  Option-cases, is_nonempty,
}
use huma_ware.Common.Int.{ℤ, pos}
use huma_ware.Common.Dict.{Dict, get, text_key}
use huma_ware.Common.Sort.{sorted, sorted-In}
use huma_ware.BagEvaluator.Topics.{default_required_topics, required_topic_present}
use huma_ware.BagEvaluator.Names.{required_topic_present-IsObserved}
use huma_ware.BagEvaluator.Walk.{Sample, TopicSummary, start, walk}
use huma_ware.BagEvaluator.Result.{
  EvaluationResult, keys, over, missing, result_of, summarize_topic_freshness,
}
use huma_ware.BagEvaluator.Silence.{IsSilent, summarize_topic_freshness-IsSilent}
use huma_ware.BagEvaluator.Missing.{IsRecorded, keys-get, missing-In, IsObserved-IsRecorded}
use huma_ware.BagEvaluator.Report.{
  gap_line, count_line, topic_lines, stale_lines, count_lines, format_summary,
}
use huma_ware.BagEvaluator.Cli.{Bag, Ros, exit_code, read_messages, evaluate_bag, main}

-- Every topic of the list has a summary.
abbrev HasSummaries : Dict String TopicSummary → List String → Type 0
HasSummaries d topics = (t : String) → In t topics → get t d ≢ none

topic_lines-total :
    (line : String → TopicSummary → String) (d : Dict String TopicSummary) (topics : List String)
    → HasSummaries d topics
    → topic_lines line d topics ≢ none
unfolding topic_lines
topic_lines-total line d [] h = ground arith
topic_lines-total line d (t ∷ topics) h =
    ground (arith, h t (inl refl), topic_lines-total line d topics (λ u i. h u (inr i)))

stale_lines-total :
    (d : Dict String TopicSummary) (topics : List String)
    → HasSummaries d topics
    → stale_lines d topics ≢ none
unfolding stale_lines
stale_lines-total d [] h = ground arith
stale_lines-total d (t ∷ topics) h = ground (arith, topic_lines-total gap_line d (t ∷ topics) h)

sorted_keys-HasSummaries : (d : Dict String TopicSummary) → HasSummaries d (sorted (keys d))
sorted_keys-HasSummaries d t i = (keys-get t d).0 ((sorted-In t (keys d)).0 i)

count_lines-total : (d : Dict String TopicSummary) → count_lines d ≢ none
unfolding count_lines
count_lines-total d =
    ground (arith, topic_lines-total count_line d (sorted (keys d)) (sorted_keys-HasSummaries d))

over-keys :
    (gap : ℤ) (t : String) (d : Dict String TopicSummary) → In t (over gap d) → In t (keys d)
unfolding over
over-keys gap t [] i = i
over-keys gap t ((k, s) ∷ d) i = ground (arith, over-keys gap t d)

format_summary-total :
    (r : EvaluationResult) → HasSummaries r.summaries r.stale_topics → format_summary r ≢ none
unfolding format_summary
format_summary-total r h =
    ground (arith, stale_lines-total r.summaries r.stale_topics h, count_lines-total r.summaries)

-- The report of an evaluation is always written: it looks up no topic that has no summary.
pub format_summary-summarize_topic_freshness :
    (ms : List Sample) (required : List String) (max_gap_ns : ℤ)
    → format_summary (summarize_topic_freshness ms required max_gap_ns) ≢ none
unfolding summarize_topic_freshness result_of
format_summary-summarize_topic_freshness ms required max_gap_ns =
    let r = summarize_topic_freshness ms required max_gap_ns in
    format_summary-total r (λ t i.
      (keys-get t r.summaries).0
        (over-keys max_gap_ns t r.summaries ((sorted-In t (over max_gap_ns r.summaries)).0 i)))

no_member : (xs : List String) → (is_nonempty xs ≡ false) ↔ ((t : String) → ¬ In t xs)
no_member [] = (λ e t i. i, λ h. refl)
no_member (x ∷ xs) = (λ e. absurd (ground arith), λ h. absurd (h x (inl refl)))

exit_code-zero :
    (r : EvaluationResult)
    → (exit_code r ≡ 0)
      ↔ ((is_nonempty r.missing_required_topics ≡ false) × (is_nonempty r.stale_topics ≡ false))
exit_code-zero r = ground arith

recorded :
    (r : String) (required : List String) (ms : List Sample)
    → is_nonempty (missing required (keys (walk ms start).summaries)) ≡ false
    → In r required
    → IsRecorded r ms
recorded r required ms e i =
    let topics = keys (walk ms start).summaries in
    elim (Bool-cases (required_topic_present r topics)) [
      | inl p ↦ (IsObserved-IsRecorded r ms).0 ((required_topic_present-IsObserved r topics).0 p)
      | inr p ↦
          absurd
            ((no_member (missing required topics)).0 e r ((missing-In r required topics).1 (i, p)))
    ]

none_missing :
    (required : List String) (ms : List Sample)
    → ((r : String) → In r required → IsRecorded r ms)
    → is_nonempty (missing required (keys (walk ms start).summaries)) ≡ false
none_missing required ms h =
    let topics = keys (walk ms start).summaries in
    (no_member (missing required topics)).1 (λ r i.
      let (a, b) = (missing-In r required topics).0 i in
      let p =
        (required_topic_present-IsObserved r topics).1 ((IsObserved-IsRecorded r ms).1 (h r a)) in
      absurd (ground arith))

-- Every required topic is recorded, and no topic is silent for longer than the gap.
abbrev pub IsHealthy : ℕ → List Sample → Type 0
IsHealthy gap ms =
    ((r : String) → In r default_required_topics → IsRecorded r ms)
    × ((t : String) → ¬ IsSilent gap t ms)

exit_code-IsHealthy :
    (gap : ℕ) (ms : List Sample)
    → (exit_code (summarize_topic_freshness ms default_required_topics (pos gap)) ≡ 0)
      ↔ IsHealthy gap ms
unfolding summarize_topic_freshness result_of
exit_code-IsHealthy gap ms =
    let r = summarize_topic_freshness ms default_required_topics (pos gap) in
    (
      λ z.
          let (a, b) = (exit_code-zero r).0 z in
          (
            λ t i. recorded t default_required_topics ms a i,
            λ t i.
                (no_member r.stale_topics).0 b t
                  ((summarize_topic_freshness-IsSilent gap t ms default_required_topics).0.1 i),
          ),
      λ (a, b). (exit_code-zero r).1 (
        none_missing default_required_topics ms a,
        (no_member r.stale_topics).1 (λ t i.
            b t ((summarize_topic_freshness-IsSilent gap t ms default_required_topics).0.0 i)),
      ),
    )

-- For a bag whose types are all known, the tool prints a report and returns, and its exit code is 0
-- if and only if every default topic was recorded and no recorded topic was silent for longer than
-- the threshold, which is not negative.
pub main-IsHealthy :
    {D T : Type 0} (ros : Ros D T) (bag : Bag D) (gap : ℕ) (ms : List Sample)
    → read_messages ros bag ≡ some ms
    → (text : String) × (code : ℕ) × (main ros bag (pos gap) ≡ some (text, code))
      × ((code ≡ 0) ↔ IsHealthy gap ms)
unfolding main evaluate_bag
main-IsHealthy ros bag gap ms h =
    let r = summarize_topic_freshness ms default_required_topics (pos gap) in
    elim (Option-cases (format_summary r)) [
      | inl n ↦
          absurd (format_summary-summarize_topic_freshness ms default_required_topics (pos gap) n)
      | inr (text, q) ↦ (text, exit_code r, ground (arith, h, q), exit_code-IsHealthy gap ms)
    ]
