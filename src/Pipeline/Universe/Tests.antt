-- ===== src/Pipeline/Universe/Tests.antt =====
-- The universe of a seed with two wallets, and the theorems at it.
use smart_money_falsifier.Base.{
  ◌≡◌, refl, some, List, [], ◌∷◌, length, keys, Str, str, str_eq, str_key, lookup, insert, in_order,
  backwards, pos, sort_by, str_lt, arith,
}
use smart_money_falsifier.Float.Whole.{Whole, whole, whole_float, Whole-IsOrdered}
use smart_money_falsifier.Pipeline.Universe.{DexTrade, ParseTime, derive_universe, limit_universe}
use smart_money_falsifier.Pipeline.Universe.Ranking.{IsValued}
use smart_money_falsifier.Pipeline.Universe.Limit.{limit_universe_order}
use smart_money_falsifier.Pipeline.Universe.Top.{IsTop, limit_universe-IsTop}

abbrev bought : Str → Str → Whole → DexTrade Whole
bought trader token value = record {
  chain = str "eth";
  block_timestamp = [];
  trader_address = trader;
  trader_address_label = [];
  token_bought_address = token;
  token_sold_address = str "usdc";
  token_bought_amount = value;
  token_bought_symbol = str "T";
  token_sold_symbol = [];
  trade_value_usd = value;
}

abbrev seed : List (DexTrade Whole)
seed =
    bought (str "a") (str "t") (whole (pos 3))
    ∷ bought (str "b") (str "u") (whole (pos 8))
    ∷ bought (str "a") (str "u") (whole (pos 2))
    ∷ []

abbrev no_time : ParseTime
no_time s = some (pos 0)

-- The wallet that bought the most is kept, with its token.
kept_runs :
    let kept =
      limit_universe in_order (derive_universe no_time seed).0 (derive_universe no_time seed).1 1 in
    (keys kept.0 ≡ str "b" ∷ []) × (keys kept.1 ≡ str "eth:u" ∷ [])
unfolding limit_universe derive_universe lookup insert sort_by str_lt str_eq str
kept_runs = (refl, refl)

seed-IsValued : IsValued (derive_universe no_time seed).0
unfolding derive_universe lookup insert str_eq str
seed-IsValued = (refl, (refl, tt))

two_wallets : length (derive_universe no_time seed).0 ≡ 2
unfolding derive_universe lookup insert str_eq str
two_wallets = refl

limit_universe_order_example :
    limit_universe in_order (derive_universe no_time seed).0 (derive_universe no_time seed).1 1
    ≡ limit_universe backwards (derive_universe no_time seed).0 (derive_universe no_time seed).1 1
limit_universe_order_example =
    limit_universe_order Whole-IsOrdered in_order backwards no_time seed 1 seed-IsValued

limit_universe-IsTop_example :
    IsTop 1
      (derive_universe no_time seed).0
      (limit_universe backwards
        (derive_universe no_time seed).0
        (derive_universe no_time seed).1
        1).0
limit_universe-IsTop_example =
    limit_universe-IsTop Whole-IsOrdered backwards no_time seed 1 seed-IsValued (omega arith)
      (omega (arith, two_wallets))
