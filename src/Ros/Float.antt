-- ===== src/Ros/Float.antt =====
-- Python's `float`, abstractly: its operations and the laws that the proofs use, which hold of
-- IEEE 754 doubles with NaN, infinities and rounding. `lt`, `le` and `eq` are `<`, `<=`, `==`;
-- `to_single` is the nearest float32, as a `float32` field of a message keeps a number.
use huma_ware.Common.{◌≡◌, arith, Bool, true, false, if◌then◌else◌}

pub record FloatOps (F : Type 0) : Type 0 where
  pub float_zero : F
  pub lt : F → F → Bool
  pub le : F → F → Bool
  pub eq : F → F → Bool
  pub neg : F → F
  pub add : F → F → F
  pub sub : F → F → F
  pub abs : F → F
  pub to_single : F → F

-- NaN is the value with which every comparison fails.
pub record IsFloat {F : Type 0} (o : FloatOps F) : Type 0 where
  pub le_of_lt : (a b : F) → o.lt a b ≡ true → o.le a b ≡ true
  pub not-lt_of_le : (a b : F) → o.le a b ≡ true → o.lt b a ≡ false
  pub le_refl_left : (a b : F) → o.le a b ≡ true → o.le a a ≡ true
  pub le_refl_right : (a b : F) → o.le a b ≡ true → o.le b b ≡ true
  pub le_trans : (a b c : F) → o.le a b ≡ true → o.le b c ≡ true → o.le a c ≡ true
  pub zero_refl : o.eq o.float_zero o.float_zero ≡ true

module _ {F : Type 0} ⦃o : FloatOps F⦄ where
  -- Python's `min(a, b)` and `max(a, b)` keep `a` unless `b` compares as smaller or larger.
  abbrev pub min_float : F → F → F
  min_float a b = if o.lt b a then b else a

  abbrev pub max_float : F → F → F
  max_float a b = if o.lt a b then b else a

  abbrev pub IsNan : F → Type 0
  IsNan v = (x : F) → (o.lt v x ≡ false) × (o.lt x v ≡ false)

module _ {F : Type 0} ⦃o : FloatOps F⦄ (l : IsFloat o) where
  -- `max(lo, min(hi, v))` lies between the limits, also when `v` is NaN.
  pub clamp-within :
      (v lo hi : F)
      → o.le lo hi ≡ true
      → (o.le lo (max_float lo (min_float hi v)) ≡ true)
        × (o.le (max_float lo (min_float hi v)) hi ≡ true)
  clamp-within v lo hi h = ground (
    arith,
    l.le_refl_left lo hi,
    l.le_refl_right lo hi,
    l.le_of_lt lo hi,
    l.le_of_lt v hi,
    l.le_of_lt lo v,
  )

  -- A value between the limits is kept, up to the choice among equal values.
  pub clamp-inside :
      (v lo hi : F) → o.lt lo v ≡ true → o.lt v hi ≡ true → max_float lo (min_float hi v) ≡ v
  clamp-inside v lo hi p q = ground arith

  -- NaN becomes the upper limit.
  pub clamp-nan : (v lo hi : F) → IsNan v → o.lt lo hi ≡ true → max_float lo (min_float hi v) ≡ hi
  clamp-nan v lo hi n h = ground (arith, n hi)
