-- ===== src/Float/Descending.antt =====
-- The order of a slice that the program sorts by a float64, the largest first, and then by a text.
use smart_money_falsifier.Base.{
  ◌≡◌, Bool, true, false, not, if◌then◌else◌, Str, str_lt, str_lt_irrefl, str_lt_trans,
  str_lt_total, arith,
}
use smart_money_falsifier.Float.{Float64, IsNum, IsOrdered}

module _ {W : Type 0} ⦃f : Float64 W⦄ {A : Type 0} (value : A → W) (key : A → Str) where
  abbrev pub best_first : A → A → Bool
  best_first a b =
      if not (f.eq (value a) (value b)) then f.lt (value b) (value a) else str_lt (key a) (key b)

  module _ (laws : IsOrdered W) where
    pub best_first_irrefl : (a : A) → IsNum (value a) → best_first a a ≡ false
    best_first_irrefl a h = ground (arith, h, str_lt_irrefl (key a))

    pub best_first_asym :
        (a b : A)
        → IsNum (value a)
        → IsNum (value b)
        → best_first a b ≡ true
        → best_first b a ≡ false
    best_first_asym a b p q h = grind (
      arith,
      p,
      q,
      h,
      laws.eq-not-lt (value a) (value b) p q,
      laws.eq-not-lt (value b) (value a) q p,
      laws.lt_trans (value a) (value b) (value a),
      laws.lt_irrefl (value a),
      str_lt_trans (key a) (key b) (key a),
      str_lt_irrefl (key a),
    )

    pub best_first_trans :
        (a b c : A)
        → IsNum (value a)
        → IsNum (value b)
        → IsNum (value c)
        → best_first a b ≡ true
        → best_first b c ≡ true
        → best_first a c ≡ true
    best_first_trans a b c p q o h k = grind (
      arith,
      p,
      q,
      o,
      h,
      k,
      laws.eq-not-lt (value a) (value b) p q,
      laws.eq-not-lt (value b) (value c) q o,
      laws.eq-not-lt (value a) (value c) p o,
      laws.lt_trans (value c) (value b) (value a),
      laws.not-lt_trans (value a) (value b) (value c) q,
      laws.not-lt_trans (value c) (value b) (value a) q,
      laws.not-lt_trans (value b) (value c) (value a) o,
      laws.not-lt_trans (value b) (value a) (value c) p,
      laws.not-lt_trans (value c) (value a) (value b) p,
      laws.not-lt_trans (value a) (value c) (value b) o,
      str_lt_trans (key a) (key b) (key c),
    )

    pub not-best_first_trans :
        (a b c : A)
        → IsNum (value a)
        → IsNum (value b)
        → IsNum (value c)
        → best_first c b ≡ false
        → best_first b a ≡ false
        → best_first c a ≡ false
    not-best_first_trans a b c p q o h k = grind (
      arith,
      p,
      q,
      o,
      h,
      k,
      laws.eq-not-lt (value a) (value b) p q,
      laws.eq-not-lt (value b) (value a) q p,
      laws.eq-not-lt (value b) (value c) q o,
      laws.eq-not-lt (value c) (value b) o q,
      laws.eq-not-lt (value a) (value c) p o,
      laws.eq-not-lt (value c) (value a) o p,
      laws.lt_trans (value a) (value b) (value c),
      laws.lt_trans (value a) (value c) (value b),
      laws.lt_trans (value b) (value a) (value c),
      laws.not-lt_trans (value a) (value b) (value c) q,
      laws.not-lt_trans (value c) (value b) (value a) q,
      laws.not-lt_trans (value b) (value c) (value a) o,
      laws.not-lt_trans (value b) (value a) (value c) p,
      laws.not-lt_trans (value c) (value a) (value b) p,
      laws.not-lt_trans (value a) (value c) (value b) o,
      str_lt_total (key a) (key b),
      str_lt_trans (key c) (key a) (key b),
    )

    -- Two elements of which neither comes first have the same text.
    pub same_key :
        (a b : A)
        → IsNum (value a)
        → IsNum (value b)
        → best_first a b ≡ false
        → best_first b a ≡ false
        → key a ≡ key b
    same_key a b p q h k = grind (
      arith,
      p,
      q,
      h,
      k,
      laws.eq-not-lt (value a) (value b) p q,
      laws.eq-not-lt (value b) (value a) q p,
      str_lt_total (key a) (key b),
    )

    pub not-best_first-lt :
        (a b : A)
        → IsNum (value a)
        → IsNum (value b)
        → best_first b a ≡ false
        → f.lt (value a) (value b) ≡ false
    not-best_first-lt a b p q h = grind (
      arith,
      p,
      q,
      h,
      laws.eq-not-lt (value a) (value b) p q,
      laws.eq-not-lt (value b) (value a) q p,
    )
