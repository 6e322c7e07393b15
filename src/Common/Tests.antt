-- ===== src/Common/Tests.antt =====
-- Boolean tests on native numbers and texts, the conditional, and Python's `x or default`.
use Prim.Native.Nat.{ℕ, compare, Ordering}
use Prim.Native.String.{String}
use mathlib.Core.Path.{◌≡◌, refl}
use mathlib.Core.Logic.{◌⊎◌, inl, inr}
use mathlib.Core.Bool.{Bool, true, false, ◌||◌}
use mathlib.Core.Option.{Option, none, some}
use mathlib.Core.List.{List, [], ◌∷◌}
use text.Mathlib.Text.{◌==◌ as text_eq}

abbrev pub ltb : ℕ → ℕ → Bool
ltb a b = elim (compare a b) [ Ordering.lt ↦ true | _ ↦ false ]

abbrev pub leb : ℕ → ℕ → Bool
leb a b = elim (compare a b) [ Ordering.gt ↦ false | _ ↦ true ]

infix 50 ◌==◌
abbrev pub ◌==◌ : ℕ → ℕ → Bool
a == b = elim (compare a b) [ Ordering.eq ↦ true | _ ↦ false ]

abbrev pub str_eq : String → String → Bool
str_eq a b = text_eq a b

infix 1 if◌then◌else◌
abbrev pub if◌then◌else◌ {ℓ} : {A : Type ℓ} → Bool → A → A → A
if true then x else y = x
if false then x else y = y

-- `value in (a, b, c)` for codes and for texts.
abbrev pub elem : ℕ → List ℕ → Bool
elem a [] = false
elem a (x ∷ xs) = a == x || elem a xs

abbrev pub elem_str : String → List String → Bool
elem_str a [] = false
elem_str a (x ∷ xs) = str_eq a x || elem_str a xs

-- `text or default`: the empty text counts as absent.
abbrev pub or_default : String → String → String
or_default s d = if str_eq s "" then d else s

abbrev pub is_some {ℓ} : {A : Type ℓ} → Option A → Bool
is_some none = false
is_some (some _) = true

pub Bool-cases : (b : Bool) → (b ≡ true) ⊎ (b ≡ false)
Bool-cases true = inl refl
Bool-cases false = inr refl

pub Option-cases {ℓ} : {A : Type ℓ} (o : Option A) → (o ≡ none) ⊎ ((a : A) × (o ≡ some a))
Option-cases none = inl refl
Option-cases (some a) = inr (a, refl)

-- What holds of both branches holds of the conditional.
pub if-elim :
    {A : Type 0} (C : A → Type 0) (x y : A) (b : Bool)
    → (b ≡ true → C x)
    → (b ≡ false → C y)
    → C (if b then x else y)
if-elim C x y true t f = t refl
if-elim C x y false t f = f refl

-- Two functions that agree on the branches agree on the conditionals.
pub if-agree :
    {A B C : Type 0} (f : A → C) (g : B → C) (b : Bool) {x y : A} {u v : B}
    → f x ≡ g u
    → f y ≡ g v
    → f (if b then x else y) ≡ g (if b then u else v)
if-agree f g true p q = p
if-agree f g false p q = q
