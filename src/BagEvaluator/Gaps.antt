-- ===== src/BagEvaluator/Gaps.antt =====
-- What evaluator.py makes of the times in a table of summaries: gaps, and the edges of the recording.
use huma_ware.Common.{
  ℕ, ◌+◌, ◌<◌, ◌↔◌, ◌⊎◌, inl, inr, String, Option, none, some, List, [], ◌∷◌, arith, eq_iff, In,
}
use huma_ware.Common.Int.{pos}
use huma_ware.Common.Dict.{Dict, get, text_key, HasDistinctKeys}
use huma_ware.BagEvaluator.Walk.{TopicSummary}
use huma_ware.BagEvaluator.Reference.{largest_gap}
use huma_ware.BagEvaluator.Result.{
  firsts, lasts, cons_some, minimum, maximum, coverage_gap, with_coverage, over,
}

-- Two neighbours in the list lie further apart than the gap.
abbrev pub HasJump : ℕ → List ℕ → Type 0
HasJump gap [] = ⊥
HasJump gap (x ∷ []) = ⊥
HasJump gap (x ∷ y ∷ xs) = (x + gap < y) ⊎ HasJump gap (y ∷ xs)

-- Both times are there, and the later one comes more than the gap after the earlier one.
abbrev pub IsApart : ℕ → Option ℕ → Option ℕ → Type 0
IsApart gap (some a) (some b) = a + gap < b
IsApart gap _ _ = ⊥

abbrev pub first_of : List ℕ → Option ℕ
first_of [] = none
first_of (x ∷ xs) = some x

pub largest_gap-HasJump : (gap : ℕ) (xs : List ℕ) → (gap < largest_gap xs) ↔ HasJump gap xs
largest_gap-HasJump gap [] = ground arith
largest_gap-HasJump gap (x ∷ []) = ground arith
largest_gap-HasJump gap (x ∷ y ∷ xs) = ground (arith, largest_gap-HasJump gap (y ∷ xs))

-- Some number of the list lies more than the gap before the time, or after it.
abbrev pub AnyBefore : ℕ → List ℕ → Option ℕ → Type 0
AnyBefore gap [] o = ⊥
AnyBefore gap (x ∷ xs) o = IsApart gap (some x) o ⊎ AnyBefore gap xs o

abbrev pub AnyAfter : ℕ → Option ℕ → List ℕ → Type 0
AnyAfter gap o [] = ⊥
AnyAfter gap o (x ∷ xs) = IsApart gap o (some x) ⊎ AnyAfter gap o xs

pub minimum-AnyBefore :
    (gap : ℕ) (xs : List ℕ) (o : Option ℕ) → IsApart gap (minimum xs) o ↔ AnyBefore gap xs o
unfolding minimum
minimum-AnyBefore gap [] o = ground arith
minimum-AnyBefore gap (x ∷ xs) o = ground (arith, minimum-AnyBefore gap xs o)

pub maximum-AnyAfter :
    (gap : ℕ) (o : Option ℕ) (xs : List ℕ) → IsApart gap o (maximum xs) ↔ AnyAfter gap o xs
unfolding maximum
maximum-AnyAfter gap o [] = ground arith
maximum-AnyAfter gap o (x ∷ xs) = ground (arith, maximum-AnyAfter gap o xs)

pub coverage_gap-cases :
    (gap : ℕ) (s : TopicSummary) (a b : Option ℕ)
    → (gap < coverage_gap s a b) ↔ (
        (gap < s.max_gap_ns)
        ⊎ IsApart gap a s.first_timestamp_ns
        ⊎ IsApart gap s.last_timestamp_ns b)
unfolding coverage_gap
coverage_gap-cases gap s a b = ground arith

abbrev pub first_time : Option TopicSummary → Option ℕ
first_time none = none
first_time (some s) = s.first_timestamp_ns

abbrev pub last_time : Option TopicSummary → Option ℕ
last_time none = none
last_time (some s) = s.last_timestamp_ns

abbrev pub IsOver : ℕ → Option ℕ → Option ℕ → Option TopicSummary → Type 0
IsOver gap a b none = ⊥
IsOver gap a b (some s) = gap < coverage_gap s a b

pub over-IsOver :
    (gap : ℕ) (a b : Option ℕ) (t : String) (d : Dict String TopicSummary)
    → HasDistinctKeys d
    → In t (over (pos gap) (with_coverage a b d)) ↔ IsOver gap a b (get t d)
unfolding over with_coverage get
over-IsOver gap a b t [] h = ground arith
over-IsOver gap a b t ((k, s) ∷ d) h = ground (arith, over-IsOver gap a b t d, eq_iff k t)

cons_some-AnyBefore :
    (gap : ℕ) (o x : Option ℕ) (xs : List ℕ)
    → AnyBefore gap (cons_some x xs) o
    → IsApart gap x o ⊎ AnyBefore gap xs o
cons_some-AnyBefore gap o x xs = ground arith

cons_some-AnyAfter :
    (gap : ℕ) (o x : Option ℕ) (xs : List ℕ)
    → AnyAfter gap o (cons_some x xs)
    → IsApart gap o x ⊎ AnyAfter gap o xs
cons_some-AnyAfter gap o x xs = ground arith

pub firsts-AnyBefore :
    (gap : ℕ) (o : Option ℕ) (d : Dict String TopicSummary)
    → HasDistinctKeys d
    → AnyBefore gap (firsts d) o
    → (u : String) × IsApart gap (first_time (get u d)) o
unfolding firsts get
firsts-AnyBefore gap o [] h i = absurd i
firsts-AnyBefore gap o ((k, s) ∷ d) h i =
    elim (cons_some-AnyBefore gap o s.first_timestamp_ns (firsts d) i) [
      | inl j ↦ (k, ground (arith, eq_iff k k))
      | inr j ↦ let (u, p) = firsts-AnyBefore gap o d h.1 j in (u, ground (arith, eq_iff k u))
    ]

pub lasts-AnyAfter :
    (gap : ℕ) (o : Option ℕ) (d : Dict String TopicSummary)
    → HasDistinctKeys d
    → AnyAfter gap o (lasts d)
    → (u : String) × IsApart gap o (last_time (get u d))
unfolding lasts get
lasts-AnyAfter gap o [] h i = absurd i
lasts-AnyAfter gap o ((k, s) ∷ d) h i =
    elim (cons_some-AnyAfter gap o s.last_timestamp_ns (lasts d) i) [
      | inl j ↦ (k, ground (arith, eq_iff k k))
      | inr j ↦ let (u, p) = lasts-AnyAfter gap o d h.1 j in (u, ground (arith, eq_iff k u))
    ]

pub AnyBefore-firsts :
    (gap : ℕ) (o : Option ℕ) (d : Dict String TopicSummary) (u : String)
    → IsApart gap (first_time (get u d)) o
    → AnyBefore gap (firsts d) o
unfolding firsts get
AnyBefore-firsts gap o [] u i = i
AnyBefore-firsts gap o ((k, s) ∷ d) u i = ground (arith, eq_iff k u, AnyBefore-firsts gap o d u)

pub AnyAfter-lasts :
    (gap : ℕ) (o : Option ℕ) (d : Dict String TopicSummary) (u : String)
    → IsApart gap o (last_time (get u d))
    → AnyAfter gap o (lasts d)
unfolding lasts get
AnyAfter-lasts gap o [] u i = ground arith
AnyAfter-lasts gap o ((k, s) ∷ d) u i = ground (arith, eq_iff k u, AnyAfter-lasts gap o d u)
