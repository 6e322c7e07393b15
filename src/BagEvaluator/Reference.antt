-- ===== src/BagEvaluator/Reference.antt =====
-- The loop of evaluator.py against a description of its result for one topic: the times at which the
-- topic was recorded, in order.
use huma_ware.Common.{
  append-concat, ℕ, ◌+◌, ◌-◌, ◌≡◌, refl, sym, ap, ◌∙◌, subst, String, Option, none, some, List, [],
  ◌∷◌, ◌++◌, arith, length, append, ltb, str_eq, eq_iff, if◌then◌else◌,
}
use mathlib.Core.List.{append-nil}
use huma_ware.Common.Dict.{get, get-put, text_key}
use huma_ware.BagEvaluator.Topics.{watched_fields}
use huma_ware.BagEvaluator.Walk.{
  Value, Sample, TopicSummary, Walk, or_new, raised, updated, watch_value, watch, count, observe,
  start, walk,
}

-- The times of a topic's messages, in the order of the recording.
unfoldable pub times : String → List Sample → List ℕ
times t [] = []
times t (m ∷ ms) = if str_eq m.topic t then m.timestamp_ns ∷ times t ms else times t ms

abbrev pub last_of : List ℕ → Option ℕ
last_of [] = none
last_of (x ∷ []) = some x
last_of (x ∷ y ∷ xs) = last_of (y ∷ xs)

abbrev pub larger : ℕ → ℕ → ℕ
larger a b = if ltb a b then b else a

-- The largest step between neighbours; a step back in time counts as none.
abbrev pub largest_gap : List ℕ → ℕ
largest_gap [] = 0
largest_gap (x ∷ []) = 0
largest_gap (x ∷ y ∷ xs) = larger (y - x) (largest_gap (y ∷ xs))

-- What the loop is to record of a topic with these times.
abbrev pub summary_of : String → List ℕ → Option TopicSummary
summary_of t [] = none
summary_of t (x ∷ xs) = some (record {
  topic = t;
  message_count = length (x ∷ xs);
  first_timestamp_ns = some x;
  last_timestamp_ns = last_of (x ∷ xs);
  max_gap_ns = largest_gap (x ∷ xs);
  coverage_gap_ns = 0;
})

last_of-append : (xs : List ℕ) (t : ℕ) → last_of (append xs t) ≡ some t
last_of-append [] t = refl
last_of-append (x ∷ []) t = refl
last_of-append (x ∷ y ∷ xs) t = last_of-append (y ∷ xs) t

length-append : (xs : List ℕ) (t : ℕ) → length (append xs t) ≡ length xs + 1
length-append [] t = refl
length-append (x ∷ xs) t = omega (arith, length-append xs t)

raised-larger :
    (g t : ℕ) (last : Option ℕ) (m : ℕ) → raised t last (larger g m) ≡ larger g (raised t last m)
raised-larger g t last m = ground arith

largest_gap-append :
    (xs : List ℕ) (t : ℕ) → largest_gap (append xs t) ≡ raised t (last_of xs) (largest_gap xs)
largest_gap-append [] t = refl
largest_gap-append (x ∷ []) t = ground arith
largest_gap-append (x ∷ y ∷ xs) t = ground (
  arith,
  largest_gap-append (y ∷ xs) t,
  raised-larger (y - x) t (last_of (y ∷ xs)) (largest_gap (y ∷ xs)),
)

summary_of-append :
    (t : String) (xs : List ℕ) (n : ℕ)
    → summary_of t (append xs n) ≡ some (updated n (last_of xs) (or_new t (summary_of t xs)))
unfolding updated
summary_of-append t [] n = refl
summary_of-append t (x ∷ []) n = ground (arith, largest_gap-append (x ∷ []) n)
summary_of-append t (x ∷ y ∷ xs) n = ground (
  arith,
  largest_gap-append (x ∷ y ∷ xs) n,
  last_of-append (x ∷ y ∷ xs) n,
  length-append (x ∷ y ∷ xs) n,
)

-- The loop's tables say of the topic what these times say.
pub record Tells (t : String) (xs : List ℕ) (w : Walk) : Type 0 where
  pub summary : get t w.summaries ≡ summary_of t xs
  pub last : get t w.last_timestamp ≡ last_of xs

watch_value-summaries :
    (topic : String) (t : ℕ) (f : String) (v : Option Value) (w : Walk)
    → ((watch_value topic t f v w).summaries ≡ w.summaries)
      × ((watch_value topic t f v w).last_timestamp ≡ w.last_timestamp)
unfolding watch_value
watch_value-summaries topic t f none w = (refl, refl)
watch_value-summaries topic t f (some v) w = (refl, refl)

pub watch-summaries :
    (m : Sample) (fields : List String) (w : Walk)
    → ((watch m fields w).summaries ≡ w.summaries)
      × ((watch m fields w).last_timestamp ≡ w.last_timestamp)
unfolding watch
watch-summaries m [] w = (refl, refl)
watch-summaries m (f ∷ fields) w =
    let (a, b) = watch_value-summaries m.topic m.timestamp_ns f (m.message f) w in
    let next = watch_value m.topic m.timestamp_ns f (m.message f) w in
    let (c, d) = watch-summaries m fields next in (c ∙ a, d ∙ b)

-- The times of the topic with one more message.
abbrev with_sample : String → Sample → List ℕ → List ℕ
with_sample t m xs = if str_eq m.topic t then append xs m.timestamp_ns else xs

count-summary :
    (t : String) (m : Sample) (xs : List ℕ) (w : Walk)
    → Tells t xs w
    → get t (count m w).summaries ≡ summary_of t (with_sample t m xs)
unfolding count
count-summary t m xs w h = ground (
  arith,
  eq_iff m.topic t,
  get-put m.topic t
      (updated m.timestamp_ns (get m.topic w.last_timestamp)
        (or_new m.topic (get m.topic w.summaries)))
      w.summaries,
  summary_of-append t xs m.timestamp_ns,
)

count-last :
    (t : String) (m : Sample) (xs : List ℕ) (w : Walk)
    → Tells t xs w
    → get t (count m w).last_timestamp ≡ last_of (with_sample t m xs)
unfolding count
count-last t m xs w h =
    ground
      (arith, get-put m.topic t m.timestamp_ns w.last_timestamp, last_of-append xs m.timestamp_ns)

observe-Tells :
    (t : String) (m : Sample) (xs : List ℕ) (w : Walk)
    → Tells t xs w
    → Tells t (with_sample t m xs) (observe m w)
unfolding observe
observe-Tells t m xs w h =
    let (a, b) = watch-summaries m (watched_fields m.topic) (count m w) in
    record {
      summary = ap (get t) a ∙ count-summary t m xs w h;
      last = ap (get t) b ∙ count-last t m xs w h;
    }

with_sample-times :
    (t : String) (m : Sample) (xs : List ℕ) (ms : List Sample)
    → with_sample t m xs ++ times t ms ≡ xs ++ times t (m ∷ ms)
unfolding times
with_sample-times t m xs ms = ground (arith, append-concat xs m.timestamp_ns (times t ms))

walk-Tells :
    (t : String) (ms : List Sample) (xs : List ℕ) (w : Walk)
    → Tells t xs w
    → Tells t (xs ++ times t ms) (walk ms w)
unfolding walk times
walk-Tells t [] xs w h = subst (λ l. Tells t l w) (sym (append-nil xs)) h
walk-Tells t (m ∷ ms) xs w h =
    subst (λ l. Tells t l (walk ms (observe m w))) (with_sample-times t m xs ms)
      (walk-Tells t ms (with_sample t m xs) (observe m w) (observe-Tells t m xs w h))

-- For every topic, the loop records the number of its messages, the first and the last of its times and
-- the largest step between neighbours, and nothing for a topic without messages.
pub walk-summary_of :
    (t : String) (ms : List Sample) → get t (walk ms start).summaries ≡ summary_of t (times t ms)
unfolding get
walk-summary_of t ms = (walk-Tells t ms [] start (record { summary = refl; last = refl })).summary
