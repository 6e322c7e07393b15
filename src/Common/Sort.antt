-- ===== src/Common/Sort.antt =====
-- Python's order of texts, by code points, and `sorted` on a list of texts. Equal texts cannot be told
-- apart, so which sort is used does not show.
use Prim.Native.Char.{code}
use huma_ware.Common.{
  String, ◌≡◌, refl, ◌↔◌, Bool, true, false, List, [], ◌∷◌, arith, ltb, ◌==◌, In, if-elim,
  if◌then◌else◌,
}

unfoldable pub le_text : String → String → Bool
le_text String.[] t = true
le_text (String.◌∷◌ c s) String.[] = false
le_text (String.◌∷◌ c s) (String.◌∷◌ d t) =
    if ltb (code c) (code d) then true else if code c == code d then le_text s t else false

insert_text : String → List String → List String
insert_text x [] = x ∷ []
insert_text x (y ∷ ys) = if le_text x y then x ∷ y ∷ ys else y ∷ insert_text x ys

unfoldable pub sorted : List String → List String
unfolding insert_text
sorted [] = []
sorted (x ∷ xs) = insert_text x (sorted xs)

-- Each text is at most the next one.
abbrev pub IsAscending : List String → Type 0
IsAscending [] = Unit
IsAscending (x ∷ []) = Unit
IsAscending (x ∷ y ∷ ys) = (le_text x y ≡ true) × IsAscending (y ∷ ys)

le_text_total : (s t : String) → le_text s t ≡ false → le_text t s ≡ true
unfolding le_text
le_text_total String.[] t h = absurd (ground arith)
le_text_total (String.◌∷◌ c s) String.[] h = refl
le_text_total (String.◌∷◌ c s) (String.◌∷◌ d t) h = ground (arith, le_text_total s t)

-- A text at most `x` may stand before a list that `x` was put into.
insert_text-below :
    (y x : String) (ys : List String)
    → le_text y x ≡ true
    → IsAscending (y ∷ ys)
    → IsAscending (insert_text x ys)
    → IsAscending (y ∷ insert_text x ys)
unfolding insert_text
insert_text-below y x [] h a b = (h, tt)
insert_text-below y x (z ∷ zs) h a b = ground arith

insert_text-IsAscending :
    (x : String) (ys : List String) → IsAscending ys → IsAscending (insert_text x ys)
unfolding insert_text
insert_text-IsAscending x [] h = tt
insert_text-IsAscending x (y ∷ []) h =
    if-elim IsAscending _ _ (le_text x y) (λ e. (e, tt)) (λ e. (le_text_total x y e, tt))
insert_text-IsAscending x (y ∷ z ∷ zs) h =
    if-elim IsAscending _ _ (le_text x y) (λ e. (e, h))
      (λ e.
        insert_text-below y x (z ∷ zs) (le_text_total x y e) h
          (insert_text-IsAscending x (z ∷ zs) h.1))

pub sorted-IsAscending : (xs : List String) → IsAscending (sorted xs)
unfolding sorted
sorted-IsAscending [] = tt
sorted-IsAscending (x ∷ xs) = insert_text-IsAscending x (sorted xs) (sorted-IsAscending xs)

insert_text-In : (a x : String) (ys : List String) → In a (insert_text x ys) ↔ In a (x ∷ ys)
unfolding insert_text
insert_text-In a x [] = ground arith
insert_text-In a x (y ∷ ys) = ground (arith, insert_text-In a x ys)

pub sorted-In : (a : String) (xs : List String) → In a (sorted xs) ↔ In a xs
unfolding sorted
sorted-In a [] = ground arith
sorted-In a (x ∷ xs) = ground (arith, insert_text-In a x (sorted xs), sorted-In a xs)
