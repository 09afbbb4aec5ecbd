-- ===== src/Score/Move.antt =====
-- internal/score/move.go: how far a token has moved since it was bought. A pointer that may be nil is
-- an Option.
pub mod Peak
use smart_money_falsifier.Base.{
  Bool, true, false, not, ◌&&◌, ◌||◌, Option, none, some, List, [], ◌∷◌, if◌then◌else◌, fold,
  select,
}
use smart_money_falsifier.Float.{Float64}

pub record Move (W : Type 0) : Type 0 where
  pub entry_price : W
  pub peak_multiple : W
  pub now_multiple : W
  pub from_peak : W

pub record Buy (W : Type 0) : Type 0 where
  pub value_usd : W
  pub amount : W

pub record Candle (W : Type 0) : Type 0 where
  pub high : Option W
  pub close : Option W

module _ {W : Type 0} ⦃f : Float64 W⦄ where
  -- One pass of the loop of EntryPrice over `(usd, amount)`.
  unfoldable pub add_buy : W × W → Buy W → W × W
  add_buy (usd, amount) b =
      if f.le b.value_usd f.zero || f.le b.amount f.zero
      then (usd, amount)
      else (f.add usd b.value_usd, f.add amount b.amount)

  unfoldable pub entry_price : List (Buy W) → Option W
  unfolding add_buy
  entry_price buys =
      let (usd, amount) = fold add_buy (f.zero, f.zero) buys in
      if f.eq amount f.zero then none else some (f.div usd amount)

  -- `b.ValueUSD > 0 && b.Amount > 0 && b.ValueUSD/b.Amount > peak`
  unfoldable pub raise_fill : W → Buy W → W
  raise_fill peak b =
      if (f.lt f.zero b.value_usd && f.lt f.zero b.amount) && f.lt peak (f.div b.value_usd b.amount)
      then f.div b.value_usd b.amount
      else peak

  -- `c.High != nil && *c.High > 0`
  abbrev pub priced : Option W → Bool
  priced none = false
  priced (some x) = f.lt f.zero x

  unfoldable pub raise_high : W → Candle W → W
  raise_high peak c = elim c.high [
    | none ↦ peak
    | some high ↦ if f.lt f.zero high && f.lt peak high then high else peak
  ]

  unfoldable pub last_close : W → Candle W → W
  last_close last c = elim c.close [
    | none ↦ last
    | some close ↦ if f.lt f.zero close then close else last
  ]

  unfoldable pub peak_of : List (Buy W) → List (Candle W) → W
  unfolding raise_fill raise_high
  peak_of buys candles = fold raise_high (fold raise_fill f.zero buys) candles

  unfoldable pub candle_peak : List (Candle W) → Bool
  candle_peak [] = false
  candle_peak (c ∷ cs) = priced c.high || candle_peak cs

  unfoldable pub compute_move : List (Buy W) → List (Candle W) → Option (Move W)
  unfolding entry_price peak_of candle_peak last_close
  compute_move buys candles = elim (entry_price buys) [
    | none ↦ none
    | some entry ↦
        let peak = peak_of buys candles in
        let last = fold last_close f.zero candles in
        if not (candle_peak candles) || f.eq last f.zero
        then none
        else some (record {
          entry_price = entry;
          peak_multiple = f.div peak entry;
          now_multiple = f.div last entry;
          from_peak = f.sub f.one (f.div last peak);
        })
  ]
