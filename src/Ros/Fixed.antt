-- ===== src/Ros/Fixed.antt =====
-- A concrete instance of the floating point interface: thousandths, and a NaN. It shows that the laws
-- can hold and lets the tests run.
use huma_ware.Common.{◌+◌, ◌≡◌, refl, Bool, true, false, arith, ◌==◌}
use huma_ware.Common.Int.{ℤ, pos, pos_part, neg_part, sub_ℕ, ltb_ℤ, leb_ℤ}
use huma_ware.Ros.Float.{FloatOps, IsFloat, IsNan}

pub data Fixed : Type 0 where
  nan : Fixed
  milli : ℤ → Fixed

abbrev pub lt_fixed : Fixed → Fixed → Bool
lt_fixed (milli a) (milli b) = ltb_ℤ a b
lt_fixed _ _ = false

abbrev pub le_fixed : Fixed → Fixed → Bool
le_fixed (milli a) (milli b) = leb_ℤ a b
le_fixed _ _ = false

abbrev pub eq_fixed : Fixed → Fixed → Bool
eq_fixed (milli a) (milli b) = pos_part a + neg_part b == pos_part b + neg_part a
eq_fixed _ _ = false

abbrev pub neg_fixed : Fixed → Fixed
neg_fixed nan = nan
neg_fixed (milli a) = milli (sub_ℕ (neg_part a) (pos_part a))

abbrev pub add_fixed : Fixed → Fixed → Fixed
add_fixed (milli a) (milli b) = milli (sub_ℕ (pos_part a + pos_part b) (neg_part a + neg_part b))
add_fixed _ _ = nan

abbrev pub abs_fixed : Fixed → Fixed
abs_fixed nan = nan
abs_fixed (milli a) = milli (pos (pos_part a + neg_part a))

instance abbrev pub fixed_ops : FloatOps Fixed
fixed_ops = record {
  float_zero = milli (pos 0);
  lt = lt_fixed;
  le = le_fixed;
  eq = eq_fixed;
  neg = neg_fixed;
  add = add_fixed;
  sub = λ a b. add_fixed a (neg_fixed b);
  abs = abs_fixed;
  to_single = λ a. a;
}

le_of_lt_fixed : (a b : Fixed) → lt_fixed a b ≡ true → le_fixed a b ≡ true
le_of_lt_fixed a b h = ground arith

not-lt_of_le_fixed : (a b : Fixed) → le_fixed a b ≡ true → lt_fixed b a ≡ false
not-lt_of_le_fixed a b h = ground arith

le_left_fixed : (a b : Fixed) → le_fixed a b ≡ true → le_fixed a a ≡ true
le_left_fixed a b h = ground arith

le_right_fixed : (a b : Fixed) → le_fixed a b ≡ true → le_fixed b b ≡ true
le_right_fixed a b h = ground arith

le_trans_fixed : (a b c : Fixed) → le_fixed a b ≡ true → le_fixed b c ≡ true → le_fixed a c ≡ true
le_trans_fixed a b c h k = ground arith

pub fixed_laws : IsFloat fixed_ops
fixed_laws = record {
  le_of_lt = le_of_lt_fixed;
  not-lt_of_le = not-lt_of_le_fixed;
  le_refl_left = le_left_fixed;
  le_refl_right = le_right_fixed;
  le_trans = le_trans_fixed;
  zero_refl = refl;
}

pub nan-IsNan : IsNan nan
nan-IsNan nan = (refl, refl)
nan-IsNan (milli a) = (refl, refl)
