-- ===== src/Float/Whole.antt =====
-- A carrier on which the tests run: NaN, minus infinity and whole numbers. It meets the laws.
use smart_money_falsifier.Base.{
  ◌+◌, ◌*◌, ◌/◌, Bool, true, false, arith, ltb, leb, ◌==◌, pos, pos_part, neg_part, sub_ℕ, ℤ,
}
use smart_money_falsifier.Float.{Float64, IsOrdered}

-- Rounded towards zero.
abbrev pub div_ℤ : ℤ → ℤ → ℤ
div_ℤ a b =
    sub_ℕ ((pos_part a / pos_part b) + (neg_part a / neg_part b))
      ((pos_part a / neg_part b) + (neg_part a / pos_part b))

pub data Whole : Type 0 where
  nan : Whole
  bottom : Whole
  whole : ℤ → Whole

abbrev pub lift_two : (ℤ → ℤ → ℤ) → Whole → Whole → Whole
lift_two g (whole a) (whole b) = whole (g a b)
lift_two g (whole a) bottom = bottom
lift_two g bottom (whole b) = bottom
lift_two g _ _ = nan

abbrev pub lt_whole : Whole → Whole → Bool
lt_whole (whole a) (whole b) = ltb (pos_part a + neg_part b) (pos_part b + neg_part a)
lt_whole bottom (whole b) = true
lt_whole _ _ = false

abbrev pub eq_whole : Whole → Whole → Bool
eq_whole (whole a) (whole b) = (pos_part a + neg_part b) == (pos_part b + neg_part a)
eq_whole bottom bottom = true
eq_whole _ _ = false

abbrev pub le_whole : Whole → Whole → Bool
le_whole (whole a) (whole b) = leb (pos_part a + neg_part b) (pos_part b + neg_part a)
le_whole bottom bottom = true
le_whole bottom (whole b) = true
le_whole _ _ = false

abbrev pub plus : ℤ → ℤ → ℤ
plus a b = sub_ℕ (pos_part a + pos_part b) (neg_part a + neg_part b)

abbrev pub minus : ℤ → ℤ → ℤ
minus a b = sub_ℕ (pos_part a + neg_part b) (neg_part a + pos_part b)

abbrev pub times : ℤ → ℤ → ℤ
times a b =
    sub_ℕ (pos_part a * pos_part b + neg_part a * neg_part b)
      (pos_part a * neg_part b + neg_part a * pos_part b)

instance abbrev pub whole_float : Float64 Whole
whole_float = record {
  zero = whole (pos 0);
  one = whole (pos 1);
  of_nat = λ n. whole (pos n);
  ratio = λ p q. whole (pos (p / q));
  add = lift_two plus;
  sub = lift_two minus;
  mul = lift_two times;
  div = lift_two div_ℤ;
  neg = lift_two minus (whole (pos 0));
  log1p = λ x. x;
  neg_inf = bottom;
  lt = lt_whole;
  le = le_whole;
  eq = eq_whole;
}

pub Whole-IsOrdered : IsOrdered Whole
Whole-IsOrdered = ground arith
