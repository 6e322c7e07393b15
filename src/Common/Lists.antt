-- ===== src/Common/Lists.antt =====
-- Lists measured and read by native numbers, and predicates on lists.
use Prim.Native.Nat.{ℕ, zero, suc}
use native.Mathlib.Omega.{arith}
use mathlib.Core.Path.{◌≡◌, refl, ap}
use mathlib.Core.Logic.{◌⊎◌, inl, inr}
use mathlib.Core.Bool.{Bool, true, false}
use mathlib.Core.Option.{Option, none, some}
use mathlib.Core.List.{List, [], ◌∷◌, ◌++◌}

module _ {ℓ} {A : Type ℓ} where
  abbrev pub length : List A → ℕ
  length [] = 0
  length (x ∷ xs) = suc (length xs)

  abbrev pub get_elem? : List A → ℕ → Option A
  get_elem? [] i = none
  get_elem? (x ∷ xs) zero = some x
  get_elem? (x ∷ xs) (suc i) = get_elem? xs i

  -- Python's truth value of a list.
  abbrev pub is_nonempty : List A → Bool
  is_nonempty [] = false
  is_nonempty (_ ∷ _) = true

module _ {ℓ κ} {A : Type ℓ} where
  abbrev pub All : (A → Type κ) → List A → Type κ
  All P [] = Unit
  All P (x ∷ xs) = P x × All P xs

module _ {ℓ} {A : Type ℓ} where
  -- Python's `xs.append(x)`.
  abbrev pub append : List A → A → List A
  append [] x = x ∷ []
  append (y ∷ ys) x = y ∷ append ys x

  pub append-concat : (xs : List A) (x : A) (ys : List A) → append xs x ++ ys ≡ xs ++ (x ∷ ys)
  append-concat [] x ys = refl
  append-concat (z ∷ xs) x ys = ap (◌∷◌ z) (append-concat xs x ys)

module _ {ℓ κ} {A : Type ℓ} (P : A → Type κ) where
  pub All-append : (xs : List A) (x : A) → All P xs → P x → All P (append xs x)
  All-append [] x h p = (p, tt)
  All-append (y ∷ ys) x h p = (h.0, All-append ys x h.1 p)

module _ {A : Type 0} where
  abbrev pub In : A → List A → Type 0
  In a [] = ⊥
  In a (x ∷ xs) = (a ≡ x) ⊎ In a xs

  pub get_elem?-In : (xs : List A) (n : ℕ) (a : A) → get_elem? xs n ≡ some a → In a xs
  get_elem?-In [] n a h = absurd (ground arith)
  get_elem?-In (x ∷ xs) zero a h = inl (ground (arith, h))
  get_elem?-In (x ∷ xs) (suc n) a h = inr (get_elem?-In xs n a h)
