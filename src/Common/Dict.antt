-- ===== src/Common/Dict.antt =====
-- Python's `dict`: pairs in order of first insertion. A write to a key that is there keeps its place.
use mathlib.Core.Path.{refl}
use text.Mathlib.Text.{◌==◌ as text_eq}
use huma_ware.Common.{
  ℕ, String, ◌≡◌, ◌↔◌, In, Bool, true, Option, none, some, List, [], ◌∷◌, arith, ◌==◌, eq_iff,
  if◌then◌else◌,
}

pub record Eq (A : Type 0) : Type 0 where
  pub beq : A → A → Bool
  pub beq_iff : (a b : A) → (beq a b ≡ true) ↔ (a ≡ b)

pub code_eq_iff : (a b : ℕ) → ((a == b) ≡ true) ↔ (a ≡ b)
code_eq_iff a b = ground arith

instance abbrev pub code_eq : Eq ℕ
code_eq = record { beq = ◌==◌; beq_iff = code_eq_iff }

instance abbrev pub text_key : Eq String
text_key = record { beq = text_eq; beq_iff = eq_iff }

abbrev pub Dict : Type 0 → Type 0 → Type 0
Dict K V = List (K × V)

module _ {K V : Type 0} ⦃e : Eq K⦄ where
  unfoldable pub get : K → Dict K V → Option V
  get k [] = none
  get k ((j, v) ∷ d) = if e.beq j k then some v else get k d

  unfoldable pub put : K → V → Dict K V → Dict K V
  put k v [] = (k, v) ∷ []
  put k v ((j, w) ∷ d) = if e.beq j k then (j, v) ∷ d else (j, w) ∷ put k v d

  pub get-put :
      (k j : K) (v : V) (d : Dict K V) → get j (put k v d) ≡ (if e.beq k j then some v else get j d)
  unfolding get put
  get-put k j v [] = refl
  get-put k j v ((i, w) ∷ d) =
      ground (arith, e.beq_iff k j, e.beq_iff i k, e.beq_iff i j, get-put k j v d)

  -- No key stands twice.
  abbrev pub HasDistinctKeys : Dict K V → Type 0
  HasDistinctKeys [] = Unit
  HasDistinctKeys ((k, v) ∷ d) = (get k d ≡ none) × HasDistinctKeys d

  pub put-HasDistinctKeys :
      (k : K) (v : V) (d : Dict K V) → HasDistinctKeys d → HasDistinctKeys (put k v d)
  unfolding get put
  put-HasDistinctKeys k v [] h = (refl, tt)
  put-HasDistinctKeys k v ((j, w) ∷ d) h =
      ground (arith, put-HasDistinctKeys k v d, get-put k j v d, e.beq_iff k j, e.beq_iff j k)

  -- The pairs of such a dictionary are what the lookups find.
  pub In-get : (k : K) (v : V) (d : Dict K V) → HasDistinctKeys d → In (k, v) d ↔ (get k d ≡ some v)
  unfolding get
  In-get k v [] h = ground arith
  In-get k v ((j, w) ∷ d) h = ground (arith, In-get k v d, e.beq_iff j k)
