-- ===== src/BagEvaluator/Changes.antt =====
-- The transitions that evaluator.py records, against the readings of one watched field.
use mathlib.Core.List.{append-nil}
use huma_ware.Common.{
  append-concat, if-elim, ℕ, ◌≡◌, refl, sym, ap, subst, ◌∙◌, String, false, ◌&&◌, Option, none,
  some, List, [], ◌∷◌, ◌++◌, arith, elem_str, str_eq, eq_iff, All, if◌then◌else◌,
}
use huma_ware.Common.Int.{ℤ}
use huma_ware.BagEvaluator.Result.{summarize_topic_freshness, result_of}
use huma_ware.Common.Dict.{Dict, get, get-put, text_key}
use huma_ware.BagEvaluator.Topics.{
  watched_fields_by_topic, normalize_topic, or_no_fields, watched_fields,
}
use huma_ware.BagEvaluator.Walk.{
  Value, Sample, key_eq, key_eq_iff, pair_key, Walk, watch_value, watch, count, observe, start,
  walk,
}
use huma_ware.BagEvaluator.Readings.{
  Reading, add_reading, append_reading, readings, changes, of_field, last_value, last_value-append,
  changes-append, of_field-event,
}

-- The tables say of the field what these readings say.
pub record Tracks (t f : String) (rs : List Reading) (w : Walk) : Type 0 where
  pub value : get (t, f) w.previous_values ≡ last_value rs
  pub events : of_field t f w.transitions ≡ changes t f rs

abbrev with_value :
    String → String → String → ℕ → String → Option Value → List Reading → List Reading
with_value t f topic n field_name v rs =
    if key_eq (topic, field_name) (t, f) then append_reading n v rs else rs

watch_value-value :
    (t f topic : String) (n : ℕ) (g : String) (v : Option Value) (rs : List Reading) (w : Walk)
    → Tracks t f rs w
    → get (t, f) (watch_value topic n g v w).previous_values
      ≡ last_value (with_value t f topic n g v rs)
unfolding watch_value
watch_value-value t f topic n g none rs w h = ground arith
watch_value-value t f topic n g (some c) rs w h =
    ground (arith, get-put (topic, g) (t, f) c w.previous_values, last_value-append rs n c)

watch_value-events :
    (t f topic : String) (n : ℕ) (g : String) (v : Option Value) (rs : List Reading) (w : Walk)
    → Tracks t f rs w
    → of_field t f (watch_value topic n g v w).transitions
      ≡ changes t f (with_value t f topic n g v rs)
unfolding watch_value
watch_value-events t f topic n g none rs w h = ground arith
watch_value-events t f topic n g (some c) rs w h = ground (
  arith,
  key_eq_iff (topic, g) (t, f),
  of_field-event t f topic g n c (get (topic, g) w.previous_values) w.transitions,
  changes-append t f rs n c,
)

watch_value-Tracks :
    (t f topic : String) (n : ℕ) (g : String) (v : Option Value) (rs : List Reading) (w : Walk)
    → Tracks t f rs w
    → Tracks t f (with_value t f topic n g v rs) (watch_value topic n g v w)
watch_value-Tracks t f topic n g v rs w h = record {
  value = watch_value-value t f topic n g v rs w h;
  events = watch_value-events t f topic n g v rs w h;
}

-- What the fields of a message add to the readings.
abbrev with_fields : String → String → Sample → List String → List Reading → List Reading
with_fields t f m [] rs = rs
with_fields t f m (g ∷ gs) rs =
    with_fields t f m gs (with_value t f m.topic m.timestamp_ns g (m.message g) rs)

watch-Tracks :
    (t f : String) (m : Sample) (gs : List String) (rs : List Reading) (w : Walk)
    → Tracks t f rs w
    → Tracks t f (with_fields t f m gs rs) (watch m gs w)
unfolding watch
watch-Tracks t f m [] rs w h = h
watch-Tracks t f m (g ∷ gs) rs w h =
    let v = m.message g in
    watch-Tracks t f m gs (with_value t f m.topic m.timestamp_ns g v rs)
      (watch_value m.topic m.timestamp_ns g v w)
      (watch_value-Tracks t f m.topic m.timestamp_ns g v rs w h)

count-Tracks :
    (t f : String) (m : Sample) (rs : List Reading) (w : Walk)
    → Tracks t f rs w
    → Tracks t f rs (count m w)
unfolding count
count-Tracks t f m rs w h = record { value = h.value; events = h.events }

-- No field is watched twice.
abbrev IsDistinct : List String → Type 0
IsDistinct [] = Unit
IsDistinct (f ∷ fs) = (elem_str f fs ≡ false) × IsDistinct fs

fields-IsDistinct :
    (k : String) (d : Dict String (List String))
    → All (λ (x : String × List String). IsDistinct x.1) d
    → IsDistinct (or_no_fields (get k d))
unfolding get
fields-IsDistinct k [] h = tt
fields-IsDistinct k ((j, fs) ∷ d) h =
    if-elim (λ o. IsDistinct (or_no_fields o)) _ _ (str_eq j k) (λ e. h.0)
      (λ e. fields-IsDistinct k d h.1)

watched_fields-IsDistinct : (t : String) → IsDistinct (watched_fields t)
unfolding watched_fields
watched_fields-IsDistinct t = fields-IsDistinct (normalize_topic t) watched_fields_by_topic (
  (refl, tt),
  ((refl, tt), ((refl, tt), ((refl, tt), ((refl, (refl, tt)), ((refl, tt), ((refl, tt), tt)))))),
)

-- The readings with those of one more message.
abbrev with_message : String → String → Sample → List Reading → List Reading
with_message t f m rs =
    if str_eq m.topic t && elem_str f (watched_fields t)
    then append_reading m.timestamp_ns (m.message f) rs
    else rs

with_fields-distinct :
    (t f : String) (m : Sample) (gs : List String) (rs : List Reading)
    → IsDistinct gs
    → with_fields t f m gs rs ≡ (
        if str_eq m.topic t && elem_str f gs
        then append_reading m.timestamp_ns (m.message f) rs
        else rs)
with_fields-distinct t f m [] rs h = ground arith
with_fields-distinct t f m (g ∷ gs) rs h = ground (
  arith,
  eq_iff g f,
  eq_iff f g,
  with_fields-distinct t f m gs (with_value t f m.topic m.timestamp_ns g (m.message g) rs),
)

with_fields-message :
    (t f : String) (m : Sample) (rs : List Reading)
    → with_fields t f m (watched_fields m.topic) rs ≡ with_message t f m rs
with_fields-message t f m rs = ground (
  arith,
  eq_iff m.topic t,
  with_fields-distinct t f m (watched_fields m.topic) rs (watched_fields-IsDistinct m.topic),
)

observe-Tracks :
    (t f : String) (m : Sample) (rs : List Reading) (w : Walk)
    → Tracks t f rs w
    → Tracks t f (with_message t f m rs) (observe m w)
unfolding observe
observe-Tracks t f m rs w h =
    subst (λ x. Tracks t f x (observe m w)) (with_fields-message t f m rs)
      (watch-Tracks t f m (watched_fields m.topic) rs (count m w) (count-Tracks t f m rs w h))

-- The readings of the field, if it is watched.
abbrev pub watched_readings : String → String → List Sample → List Reading
watched_readings t f ms = if elem_str f (watched_fields t) then readings t f ms else []

append_reading-concat :
    (n : ℕ) (v : Option Value) (rs ss : List Reading)
    → append_reading n v rs ++ ss ≡ rs ++ add_reading n v ss
append_reading-concat n none rs ss = refl
append_reading-concat n (some v) rs ss = append-concat rs (n, v) ss

with_message-readings :
    (t f : String) (m : Sample) (rs : List Reading) (ms : List Sample)
    → with_message t f m rs ++ watched_readings t f ms ≡ rs ++ watched_readings t f (m ∷ ms)
unfolding readings
with_message-readings t f m rs ms =
    ground (arith, append_reading-concat m.timestamp_ns (m.message f) rs (readings t f ms))

no_readings : (t f : String) → watched_readings t f [] ≡ []
unfolding readings
no_readings t f = ground arith

walk-Tracks :
    (t f : String) (ms : List Sample) (rs : List Reading) (w : Walk)
    → Tracks t f rs w
    → Tracks t f (rs ++ watched_readings t f ms) (walk ms w)
unfolding walk
walk-Tracks t f [] rs w h =
    subst (λ l. Tracks t f l w) (sym (ap (◌++◌ rs) (no_readings t f) ∙ append-nil rs)) h
walk-Tracks t f (m ∷ ms) rs w h =
    subst (λ l. Tracks t f l (walk ms (observe m w))) (with_message-readings t f m rs ms)
      (walk-Tracks t f ms (with_message t f m rs) (observe m w) (observe-Tracks t f m rs w h))

start-Tracks : (t f : String) → Tracks t f [] start
unfolding get of_field
start-Tracks t f = record { value = refl; events = refl }

-- The transitions that the evaluation reports for a field of a topic are, in order, the changes
-- between neighbours among the values that the topic's messages hold in that field, messages without
-- the field passed over; a field that is not watched has none.
pub summarize_topic_freshness-changes :
    (t f : String) (ms : List Sample) (required : List String) (max_gap_ns : ℤ)
    → of_field t f (summarize_topic_freshness ms required max_gap_ns).transitions
      ≡ changes t f (watched_readings t f ms)
unfolding summarize_topic_freshness result_of
summarize_topic_freshness-changes t f ms required max_gap_ns =
    (walk-Tracks t f ms [] start (start-Tracks t f)).events
