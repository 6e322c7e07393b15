-- ===== src/BagEvaluator/Missing.antt =====
-- Which required topics evaluator.py calls missing, by the messages of the bag.
use mathlib.Core.Logic.Iff
use huma_ware.Common.{
  ℕ, ◌≡◌, refl, sym, subst, ◌↔◌, ◌≢◌, inl, inr, String, Bool, true, false, none, List, [], ◌∷◌,
  arith, str_eq, eq_iff, In, Bool-cases,
}
use huma_ware.Common.Int.{ℤ}
use huma_ware.Common.Dict.{Dict, get, text_key}
use huma_ware.BagEvaluator.Topics.{required_topic_present}
use huma_ware.BagEvaluator.Names.{Observes, IsObserved, required_topic_present-IsObserved}
use huma_ware.BagEvaluator.Walk.{Sample, TopicSummary, start, walk}
use huma_ware.BagEvaluator.Reference.{times, summary_of, walk-summary_of}
use huma_ware.BagEvaluator.Result.{keys, missing, result_of, summarize_topic_freshness}

-- The required topic is recorded in the bag, whole or in a namespace.
abbrev pub IsRecorded : String → List Sample → Type 0
IsRecorded required_topic ms = (m : Sample) × In m ms × Observes required_topic m.topic

pub missing-In :
    (r : String) (required topics : List String)
    → In r (missing required topics) ↔ (In r required × (required_topic_present r topics ≡ false))
unfolding missing
missing-In r [] topics = ground arith
missing-In r (x ∷ required) topics = ground (arith, missing-In r required topics)

and_not_iff : {A P : Type 0} (b : Bool) → ((b ≡ true) ↔ P) → (A × (b ≡ false)) ↔ (A × (¬ P))
and_not_iff true h = (λ (a, e). absurd (ground arith), λ (a, n). absurd (n (h.0 refl)))
and_not_iff false h = (λ (a, e). (a, λ q. absurd (ground (arith, h.1 q))), λ (a, n). (a, refl))

pub keys-get : (t : String) (d : Dict String TopicSummary) → In t (keys d) ↔ (get t d ≢ none)
unfolding get
keys-get t [] = ground arith
keys-get t ((k, s) ∷ d) = ground (arith, keys-get t d, eq_iff k t)

times-sample :
    (t : String) (ms : List Sample) → times t ms ≢ [] → (m : Sample) × In m ms × (m.topic ≡ t)
unfolding times
times-sample t [] h = absurd (h refl)
times-sample t (m ∷ ms) h = elim (Bool-cases (str_eq m.topic t)) [
  | inl e ↦ (m, inl refl, (eq_iff m.topic t).0 e)
  | inr e ↦ let (n, i, q) = times-sample t ms (ground arith) in (n, inr i, q)
]

sample-times : (m : Sample) (ms : List Sample) → In m ms → times m.topic ms ≢ []
unfolding times
sample-times m [] i = absurd i
sample-times m (n ∷ ms) i = ground (arith, sample-times m ms, eq_iff n.topic m.topic)

summary_of-times : (t : String) (xs : List ℕ) → (summary_of t xs ≢ none) ↔ (xs ≢ [])
summary_of-times t [] = ground arith
summary_of-times t (x ∷ xs) = ground arith

-- The topics of the summaries are those of the messages.
keys-walk :
    (t : String) (ms : List Sample) → In t (keys (walk ms start).summaries) ↔ (times t ms ≢ [])
keys-walk t ms = ground (
  arith,
  keys-get t (walk ms start).summaries,
  walk-summary_of t ms,
  summary_of-times t (times t ms),
)

pub IsObserved-IsRecorded :
    (r : String) (ms : List Sample)
    → IsObserved r (keys (walk ms start).summaries) ↔ IsRecorded r ms
IsObserved-IsRecorded r ms = (
  λ (t, i, ob).
      let (m, j, q) = times-sample t ms ((keys-walk t ms).0 i) in
      (m, j, subst (Observes r) (sym q) ob),
  λ (m, j, ob). (m.topic, (keys-walk m.topic ms).1 (sample-times m ms j), ob),
)

-- A topic is reported missing if and only if it is required and no message of the bag was recorded
-- on it, whole or in a namespace.
summarize_topic_freshness-IsRecorded :
    (r : String) (ms : List Sample) (required : List String) (max_gap_ns : ℤ)
    → In r (summarize_topic_freshness ms required max_gap_ns).missing_required_topics
      ↔ (In r required × (¬ IsRecorded r ms))
unfolding summarize_topic_freshness result_of
summarize_topic_freshness-IsRecorded r ms required max_gap_ns =
    let topics = keys (walk ms start).summaries in
    let present =
      Iff.trans (required_topic_present-IsObserved r topics) (IsObserved-IsRecorded r ms) in
    Iff.trans (missing-In r required topics) (and_not_iff (required_topic_present r topics) present)
