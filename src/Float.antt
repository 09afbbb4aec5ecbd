-- ===== src/Float.antt =====
-- Go's `float64`, as far as the program uses it: an interface, since the program relies on its
-- comparisons and on no bit pattern. A theorem names the laws that it needs.
pub mod Whole
pub mod Descending
use smart_money_falsifier.Base.{ℕ, ◌≡◌, Bool, true, false, not, ◌&&◌}

pub record Float64 (W : Type 0) : Type 0 where
  pub zero : W
  pub one : W
  pub of_nat : ℕ → W
  -- the constant nearest to the quotient of two numbers, `0.45` as `ratio 45 100`
  pub ratio : ℕ → ℕ → W
  pub add : W → W → W
  pub sub : W → W → W
  pub mul : W → W → W
  pub div : W → W → W
  pub neg : W → W
  pub log1p : W → W
  pub neg_inf : W
  pub lt : W → W → Bool
  pub le : W → W → Bool
  pub eq : W → W → Bool

module _ {W : Type 0} ⦃f : Float64 W⦄ where
  -- NaN is the one value that is not equal to itself.
  abbrev pub IsNum : W → Type 0
  IsNum x = f.eq x x ≡ true

-- IEEE 754's comparisons: an order away from NaN, and false at it.
pub record IsOrdered (W : Type 0) ⦃f : Float64 W⦄ : Type 0 where
  pub zero_num : f.eq f.zero f.zero ≡ true
  pub one_num : f.eq f.one f.one ≡ true
  pub zero-lt-one : f.lt f.zero f.one ≡ true
  pub lt_num : (x y : W) → f.lt x y ≡ true → (f.eq x x ≡ true) × (f.eq y y ≡ true)
  pub lt_irrefl : (x : W) → f.lt x x ≡ false
  pub lt_trans : (x y z : W) → f.lt x y ≡ true → f.lt y z ≡ true → f.lt x z ≡ true
  pub le-eq-not-lt : (x y : W) → f.eq x x ≡ true → f.eq y y ≡ true → f.le x y ≡ not (f.lt y x)
  pub not-lt_trans :
      (x y z : W) → f.eq y y ≡ true → f.lt y x ≡ false → f.lt z y ≡ false → f.lt z x ≡ false
  pub eq-not-lt :
      (x y : W) → f.eq x x ≡ true → f.eq y y ≡ true → f.eq x y ≡ (not (f.lt x y) && not (f.lt y x))
