-- ===== src/BagEvaluator/Readings.antt =====
-- The readings of a watched field, and the transitions among them: what the loop of evaluator.py is to
-- record.
use huma_ware.Common.{
  ℕ, ◌≡◌, refl, ap, ◌∙◌, String, Option, none, some, List, [], ◌∷◌, arith, append, str_eq, eq_iff,
  if◌then◌else◌,
}
use huma_ware.Common.Dict.{text_key}
use huma_ware.BagEvaluator.Walk.{Value, value_eq, Sample, TransitionEvent, key_eq, pair_key, event}

-- A value that a field held, with the time of its message.
abbrev pub Reading : Type 0
Reading = ℕ × Value

abbrev pub add_reading : ℕ → Option Value → List Reading → List Reading
add_reading t none rs = rs
add_reading t (some v) rs = (t, v) ∷ rs

-- What the messages of the topic hold in the field, in the order of the recording.
unfoldable pub readings : String → String → List Sample → List Reading
readings t f [] = []
readings t f (m ∷ ms) =
    if str_eq m.topic t
    then add_reading m.timestamp_ns (m.message f) (readings t f ms)
    else readings t f ms

abbrev pub change : String → String → Value → Reading → List TransitionEvent → List TransitionEvent
change t f previous (now, current) events =
    if value_eq previous current
    then events
    else record {
      topic = t;
      field_name = f;
      previous = previous;
      current = current;
      timestamp_ns = now;
    }
      ∷ events

-- The neighbours that differ.
abbrev pub changes : String → String → List Reading → List TransitionEvent
changes t f [] = []
changes t f (r ∷ []) = []
changes t f (r ∷ s ∷ rs) = change t f r.1 s (changes t f (s ∷ rs))

-- The events of one field.
unfoldable pub of_field : String → String → List TransitionEvent → List TransitionEvent
of_field t f [] = []
of_field t f (e ∷ es) =
    if key_eq (e.topic, e.field_name) (t, f) then e ∷ of_field t f es else of_field t f es

abbrev pub last_value : List Reading → Option Value
last_value [] = none
last_value (r ∷ []) = some r.1
last_value (r ∷ s ∷ rs) = last_value (s ∷ rs)

abbrev pub append_reading : ℕ → Option Value → List Reading → List Reading
append_reading t none rs = rs
append_reading t (some v) rs = append rs (t, v)

pub last_value-append :
    (rs : List Reading) (t : ℕ) (v : Value) → last_value (append rs (t, v)) ≡ some v
last_value-append [] t v = refl
last_value-append (r ∷ []) t v = refl
last_value-append (r ∷ s ∷ rs) t v = last_value-append (s ∷ rs) t v

change-event :
    (t f : String) (a : Value) (r : Reading) (n : ℕ) (v : Value) (o : Option Value)
    (es : List TransitionEvent)
    → change t f a r (event t f n v o es) ≡ event t f n v o (change t f a r es)
change-event t f a r n v o es = ground arith

pub changes-append :
    (t f : String) (rs : List Reading) (n : ℕ) (v : Value)
    → changes t f (append rs (n, v)) ≡ event t f n v (last_value rs) (changes t f rs)
changes-append t f [] n v = refl
changes-append t f (r ∷ []) n v = ground arith
changes-append t f (r ∷ s ∷ rs) n v =
    ap (change t f r.1 s) (changes-append t f (s ∷ rs) n v)
    ∙ change-event t f r.1 s n v (last_value (s ∷ rs)) (changes t f (s ∷ rs))

of_field-append :
    (t f : String) (es : List TransitionEvent) (e : TransitionEvent)
    → of_field t f (append es e) ≡ (
        if key_eq (e.topic, e.field_name) (t, f)
        then append (of_field t f es) e
        else of_field t f es)
unfolding of_field
of_field-append t f [] e = refl
of_field-append t f (x ∷ es) e = ground (arith, of_field-append t f es e)

pub of_field-event :
    (t f topic g : String) (n : ℕ) (v : Value) (o : Option Value) (es : List TransitionEvent)
    → of_field t f (event topic g n v o es)
      ≡ (if key_eq (topic, g) (t, f) then event t f n v o (of_field t f es) else of_field t f es)
of_field-event t f topic g n v none es = ground arith
of_field-event t f topic g n v (some p) es = ground (
  arith,
  eq_iff topic t,
  eq_iff g f,
  of_field-append t f es
      (record { topic = topic; field_name = g; previous = p; current = v; timestamp_ns = n }),
)
