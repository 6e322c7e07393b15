-- ===== src/BagEvaluator/Silence.antt =====
-- Which topics evaluator.py calls stale, by the times of the messages of the bag.
use mathlib.Core.Logic.Iff
use huma_ware.Common.{
  length, ℕ, ◌≡◌, refl, sym, ap, subst, ◌∙◌, ◌↔◌, ◌⊎◌, String, Option, some, List, [], ◌∷◌, arith,
  In,
}
use huma_ware.Common.Int.{pos}
use huma_ware.Common.Dict.{get, text_key, HasDistinctKeys, put-HasDistinctKeys}
use huma_ware.Common.Sort.{IsAscending, sorted-IsAscending, sorted-In}
use huma_ware.BagEvaluator.Topics.{watched_fields}
use huma_ware.BagEvaluator.Walk.{Sample, Walk, count, observe, start, walk}
use huma_ware.BagEvaluator.Reference.{
  times, last_of, largest_gap, summary_of, watch-summaries, walk-summary_of,
}
use huma_ware.BagEvaluator.Result.{
  firsts, lasts, minimum, maximum, with_coverage, over, result_of, summarize_topic_freshness,
}
use huma_ware.BagEvaluator.Gaps.{
  HasJump, IsApart, first_of, largest_gap-HasJump, minimum-AnyBefore, maximum-AnyAfter,
  coverage_gap-cases, first_time, last_time, IsOver, over-IsOver, firsts-AnyBefore, lasts-AnyAfter,
  AnyBefore-firsts, AnyAfter-lasts,
}

observe-HasDistinctKeys :
    (m : Sample) (w : Walk) → HasDistinctKeys w.summaries → HasDistinctKeys (observe m w).summaries
unfolding observe count
observe-HasDistinctKeys m w h =
    subst HasDistinctKeys (sym (watch-summaries m (watched_fields m.topic) (count m w)).0)
      (put-HasDistinctKeys m.topic _ w.summaries h)

walk-HasDistinctKeys :
    (ms : List Sample) (w : Walk)
    → HasDistinctKeys w.summaries
    → HasDistinctKeys (walk ms w).summaries
unfolding walk
walk-HasDistinctKeys [] w h = h
walk-HasDistinctKeys (m ∷ ms) w h =
    walk-HasDistinctKeys ms (observe m w) (observe-HasDistinctKeys m w h)

first_time-summary_of : (t : String) (xs : List ℕ) → first_time (summary_of t xs) ≡ first_of xs
first_time-summary_of t [] = refl
first_time-summary_of t (x ∷ xs) = refl

last_time-summary_of : (t : String) (xs : List ℕ) → last_time (summary_of t xs) ≡ last_of xs
last_time-summary_of t [] = refl
last_time-summary_of t (x ∷ xs) = refl

-- A topic is silent too long, by the times of its messages and of the others'.
abbrev pub IsSilent : ℕ → String → List Sample → Type 0
IsSilent gap t ms =
    HasJump gap (times t ms)
    ⊎ ((u : String) × IsApart gap (first_of (times u ms)) (first_of (times t ms)))
    ⊎ ((u : String) × IsApart gap (last_of (times t ms)) (last_of (times u ms)))

IsOver-summary_of :
    (gap : ℕ) (a b : Option ℕ) (t : String) (xs : List ℕ)
    → IsOver gap a b (summary_of t xs)
      ↔ (HasJump gap xs ⊎ IsApart gap a (first_of xs) ⊎ IsApart gap (last_of xs) b)
IsOver-summary_of gap a b t [] = ground arith
IsOver-summary_of gap a b t (x ∷ xs) = ground (
  arith,
  coverage_gap-cases gap
      (record {
        topic = t;
        message_count = length (x ∷ xs);
        first_timestamp_ns = some x;
        last_timestamp_ns = last_of (x ∷ xs);
        max_gap_ns = largest_gap (x ∷ xs);
        coverage_gap_ns = 0;
      })
      a b,
  largest_gap-HasJump gap (x ∷ xs),
)

first_time-walk :
    (u : String) (ms : List Sample)
    → first_time (get u (walk ms start).summaries) ≡ first_of (times u ms)
first_time-walk u ms = ap first_time (walk-summary_of u ms) ∙ first_time-summary_of u (times u ms)

last_time-walk :
    (u : String) (ms : List Sample)
    → last_time (get u (walk ms start).summaries) ≡ last_of (times u ms)
last_time-walk u ms = ap last_time (walk-summary_of u ms) ∙ last_time-summary_of u (times u ms)

-- A topic starts late against the first of the first times, or falls silent before the last of the
-- last times, exactly if it does so against some topic of the recording.
firsts-topic :
    (gap : ℕ) (o : Option ℕ) (ms : List Sample)
    → IsApart gap (minimum (firsts (walk ms start).summaries)) o
      ↔ ((u : String) × IsApart gap (first_of (times u ms)) o)
firsts-topic gap o ms =
    let d = (walk ms start).summaries in
    (
      λ i.
          let (u, p) =
            firsts-AnyBefore gap o d (walk-HasDistinctKeys ms start tt)
              ((minimum-AnyBefore gap (firsts d) o).0 i) in
          (u, subst (λ x. IsApart gap x o) (first_time-walk u ms) p),
      λ (u, p). (minimum-AnyBefore gap (firsts d) o).1 (
          AnyBefore-firsts gap o d u (subst (λ x. IsApart gap x o) (sym (first_time-walk u ms)) p)),
    )

lasts-topic :
    (gap : ℕ) (o : Option ℕ) (ms : List Sample)
    → IsApart gap o (maximum (lasts (walk ms start).summaries))
      ↔ ((u : String) × IsApart gap o (last_of (times u ms)))
lasts-topic gap o ms =
    let d = (walk ms start).summaries in
    (
      λ i.
          let (u, p) =
            lasts-AnyAfter gap o d (walk-HasDistinctKeys ms start tt)
              ((maximum-AnyAfter gap o (lasts d)).0 i) in
          (u, subst (IsApart gap o) (last_time-walk u ms) p),
      λ (u, p).
          (maximum-AnyAfter gap o (lasts d)).1
            (AnyAfter-lasts gap o d u (subst (IsApart gap o) (sym (last_time-walk u ms)) p)),
    )

over-IsSilent :
    (gap : ℕ) (t : String) (ms : List Sample) (a b : Option ℕ)
    → minimum (firsts (walk ms start).summaries) ≡ a
    → maximum (lasts (walk ms start).summaries) ≡ b
    → In t (over (pos gap) (with_coverage a b (walk ms start).summaries)) ↔ IsSilent gap t ms
over-IsSilent gap t ms a b ha hb =
    let first = firsts-topic gap (first_of (times t ms)) ms in
    let last = lasts-topic gap (last_of (times t ms)) ms in
    let over = over-IsOver gap a b t (walk ms start).summaries (walk-HasDistinctKeys ms start tt) in
    ground
      (arith, first, last, over, IsOver-summary_of gap a b t (times t ms), walk-summary_of t ms)

-- For a threshold that is not negative, a topic is reported stale if and only if it is silent for
-- longer than the threshold: between two of its messages in turn, before its first message, counted
-- from some topic's first message, or after its last message, up to some topic's last message. The
-- report names the topics in ascending order.
pub summarize_topic_freshness-IsSilent :
    (gap : ℕ) (t : String) (ms : List Sample) (required : List String)
    → let r = summarize_topic_freshness ms required (pos gap) in
      (In t r.stale_topics ↔ IsSilent gap t ms) × IsAscending r.stale_topics
unfolding summarize_topic_freshness result_of
summarize_topic_freshness-IsSilent gap t ms required =
    let d = (walk ms start).summaries in
    let a = minimum (firsts d) in
    let b = maximum (lasts d) in
    let stale = over (pos gap) (with_coverage a b d) in
    (Iff.trans (sorted-In t stale) (over-IsSilent gap t ms a b refl refl), sorted-IsAscending stale)
