-- ===== src/Score/Move/Peak.antt =====
-- internal/score/move.go: the peak of a move.
use mathlib.Core.Option.{some-injective}
use smart_money_falsifier.Base.{
  ◌≡◌, ◌⊎◌, refl, sym, subst, ◌∙◌, Bool-cases, inl, inr, true, false, ◌&&◌, Option, none, some,
  List, [], ◌∷◌, if◌then◌else◌, fold, Memᴰ, arith,
}
use smart_money_falsifier.Float.{Float64, IsOrdered}
use smart_money_falsifier.Score.Move.{Buy, Candle, raise_fill, raise_high, peak_of}

module _ {W : Type 0} ⦃f : Float64 W⦄ where
  -- The price of a fill: what the buys of the seed with a value and an amount paid.
  abbrev pub fill_price : Buy W → Option W
  fill_price b =
      if f.lt f.zero b.value_usd && f.lt f.zero b.amount
      then some (f.div b.value_usd b.amount)
      else none

  -- A high that the loop looks at.
  abbrev pub high_price : Candle W → Option W
  high_price c = elim c.high [
    | none ↦ none
    | some high ↦ if f.lt f.zero high then some high else none
  ]

  -- A price that the loops look at: one that a buy paid, or the high of a candle.
  pub data Seen (buys : List (Buy W)) (candles : List (Candle W)) (x : W) : Type 0 where
    paid : (b : Buy W) → Memᴰ b buys → fill_price b ≡ some x → Seen buys candles x
    reached : (c : Candle W) → Memᴰ c candles → high_price c ≡ some x → Seen buys candles x

module _ {W : Type 0} ⦃f : Float64 W⦄ (laws : IsOrdered W) where
  -- A fold that never lowers its state.
  raised :
      {A : Type 0} (step : W → A → W)
      → ((p : W) (a : A) → f.lt (step p a) p ≡ false)
      → ((p : W) (a : A) → f.eq p p ≡ true → f.eq (step p a) (step p a) ≡ true)
      → (p : W) (l : List A) → f.eq p p ≡ true
      → (f.lt (fold step p l) p ≡ false) × (f.eq (fold step p l) (fold step p l) ≡ true)
  raised step up num p [] h = (laws.lt_irrefl p, h)
  raised step up num p (a ∷ l) h =
      let (le, ok) = raised step up num (step p a) l (num p a h) in
      (laws.not-lt_trans p (step p a) (fold step p (a ∷ l)) (num p a h) (up p a) le, ok)

  pub asymmetric : (x y : W) → f.lt x y ≡ true → f.lt y x ≡ false
  asymmetric x y h = elim (Bool-cases (f.lt y x)) [
    | inl k ↦ ground (arith, laws.lt_trans x y x h k, laws.lt_irrefl x)
    | inr k ↦ k
  ]

  -- A step that takes `v` where it is above the state.
  unfoldable Takes : {A : Type 0} → (W → A → W) → (A → Option W) → Type 0
  Takes {A} step v =
      (p : W) (a : A)
      → (step p a ≡ p) × ((x : W) → v a ≡ some x → f.lt p x ≡ false)
        ⊎ ((x : W) × (v a ≡ some x) × (f.lt p x ≡ true) × (step p a ≡ x))

  module _ {A : Type 0} (step : W → A → W) (v : A → Option W) (takes : Takes step v) where
    step_up : (p : W) (a : A) → f.lt (step p a) p ≡ false
    unfolding Takes
    step_up p a = elim (takes p a) [
      | inl (e, k) ↦ rw e (laws.lt_irrefl p)
      | inr (x, q, lt, e) ↦ rw e (asymmetric p x lt)
    ]

    step_num : (p : W) (a : A) → f.eq p p ≡ true → f.eq (step p a) (step p a) ≡ true
    unfolding Takes
    step_num p a num = elim (takes p a) [
      | inl (e, k) ↦ rw e num
      | inr (x, q, lt, e) ↦ rw e (laws.lt_num p x lt).1
    ]

    step_covers : (p : W) (a : A) (x : W) → v a ≡ some x → f.lt (step p a) x ≡ false
    unfolding Takes
    step_covers p a x q = elim (takes p a) [
      | inl (e, k) ↦ rw e (k x q)
      | inr (y, r, lt, e) ↦ rw (e, some-injective y x (sym r ∙ q)) (laws.lt_irrefl x)
    ]

    covered :
        (p : W) (l : List A) (a : A) (x : W)
        → f.eq p p ≡ true
        → Memᴰ a l
        → v a ≡ some x
        → f.lt (fold step p l) x ≡ false
    covered p [] a x num m q = elim m [ ]
    covered p (b ∷ l) a x num (Memᴰ.head e) q =
        let (le, ok) = raised step step_up step_num (step p b) l (step_num p b num) in
        laws.not-lt_trans x (step p b) (fold step (step p b) l) (step_num p b num)
          (step_covers p b x (subst (λ c. v c ≡ some x) e q)) le
    covered p (b ∷ l) a x num (Memᴰ.tail m) q = covered (step p b) l a x (step_num p b num) m q

  raise_fill-Takes : Takes raise_fill fill_price
  unfolding Takes raise_fill
  raise_fill-Takes p b = elim (Bool-cases (f.lt f.zero b.value_usd && f.lt f.zero b.amount)) [
    | inr t ↦ rw t (inl (refl, λ x q. absurd (ground (arith, q))))
    | inl t ↦ elim (Bool-cases (f.lt p (f.div b.value_usd b.amount))) [
      | inl u ↦ rw (t, u) (inr (f.div b.value_usd b.amount, refl, u, refl))
      | inr u ↦
          rw (t, u) (inl (refl, λ x q. subst (λ y. f.lt p y ≡ false) (some-injective _ _ q) u))
    ]
  ]

  high_takes :
      (p : W) (o : Option W)
      → (elim o [ none ↦ p | some high ↦ if f.lt f.zero high && f.lt p high then high else p ] ≡ p)
          × ((x : W)
              → elim o [ none ↦ none | some high ↦ if f.lt f.zero high then some high else none ]
                ≡ some x
              → f.lt p x ≡ false)
        ⊎ ((x : W) × (elim o [
          | none ↦ none
          | some high ↦ if f.lt f.zero high then some high else none
        ]
              ≡ some x)
            × (f.lt p x ≡ true)
            × (elim o [ none ↦ p | some high ↦ if f.lt f.zero high && f.lt p high then high else p ]
                ≡ x))
  high_takes p none = inl (refl, λ x q. absurd (ground (arith, q)))
  high_takes p (some high) = elim (Bool-cases (f.lt f.zero high)) [
    | inr t ↦ rw t (inl (refl, λ x q. absurd (ground (arith, q))))
    | inl t ↦ elim (Bool-cases (f.lt p high)) [
      | inl u ↦ rw (t, u) (inr (high, refl, u, refl))
      | inr u ↦
          rw (t, u) (inl (refl, λ x q. subst (λ y. f.lt p y ≡ false) (some-injective _ _ q) u))
    ]
  ]

  raise_high-Takes : Takes raise_high high_price
  unfolding Takes raise_high
  raise_high-Takes p c = high_takes p c.high

  -- With the named laws of float64: the peak is a number, not below zero, and no price that a buy with
  -- a value and an amount paid, and no positive high of a candle, stands above it.
  pub peak_of-covers :
      (buys : List (Buy W)) (candles : List (Candle W)) (x : W)
      → Seen buys candles x
      → (f.eq (peak_of buys candles) (peak_of buys candles) ≡ true)
        × (f.lt (peak_of buys candles) f.zero ≡ false)
        × (f.lt (peak_of buys candles) x ≡ false)
  unfolding peak_of
  peak_of-covers buys candles x seen =
      let fills = fold raise_fill f.zero buys in
      let (up, num) =
        raised raise_fill (step_up raise_fill fill_price raise_fill-Takes)
          (step_num raise_fill fill_price raise_fill-Takes) f.zero buys laws.zero_num in
      let (up', num') =
        raised raise_high (step_up raise_high high_price raise_high-Takes)
          (step_num raise_high high_price raise_high-Takes) fills candles num in
      (
        num',
        laws.not-lt_trans f.zero fills _ num up up',
        elim seen [
          | paid b m q ↦
              laws.not-lt_trans x fills _ num
                (covered raise_fill fill_price raise_fill-Takes f.zero buys b x laws.zero_num m q)
                up'
          | reached c m q ↦ covered raise_high high_price raise_high-Takes fills candles c x num m q
        ],
      )
