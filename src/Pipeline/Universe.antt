-- ===== src/Pipeline/Universe.antt =====
-- internal/pipeline/pipeline.go: what the seed implies before anything is fetched: deriveUniverse,
-- limitUniverse, SeedMaxTimestamp and seedBuys. A set of chains is the list of its members.
pub mod Kept
mod Tests
pub mod Ranking
pub mod Limit
pub mod Top
use smart_money_falsifier.Base.{
  ℕ, Bool, not, ◌&&◌, ◌||◌, Option, none, some, List, [], ◌∷◌, ◌++◌, map, if◌then◌else◌, leb,
  length, take, fold, any, Str, str, str_eq, str_lt, str_key, Dict, lookup, lookup_or, insert,
  MapOrder, sort_by, ℤ, pos, ltb_ℤ,
}
use smart_money_falsifier.Float.{Float64}
use smart_money_falsifier.Score.Wallets.{WalletTokenTrade}
use smart_money_falsifier.Score.Move.{Buy}

-- The fields of a trade that the pipeline reads.
pub record DexTrade (W : Type 0) : Type 0 where
  pub chain : Str
  pub block_timestamp : Str
  pub trader_address : Str
  pub trader_address_label : Str
  pub token_bought_address : Str
  pub token_sold_address : Str
  pub token_bought_amount : W
  pub token_bought_symbol : Str
  pub token_sold_symbol : Str
  pub trade_value_usd : W

pub record WalletAgg (W : Type 0) : Type 0 where
  pub address : Str
  pub label : Str
  pub last_trade : ℤ
  pub bought_tokens : List (WalletTokenTrade W)
  pub chains : List Str

pub record TokenAgg : Type 0 where
  pub chain : Str
  pub address : Str
  pub seed_symbol : Str

abbrev pub token_key : Str → Str → Str
token_key chain address = chain ++ str ":" ++ address

abbrev pub wallet_chain_key : Str → Str → Str
wallet_chain_key address chain = address ++ str "|" ++ chain

-- `strings.SplitN(key, "|", 2)`, up to the first bar and after it
unfoldable pub split_wallet_chain_key : Str → Option (Str × Str)
split_wallet_chain_key [] = none
split_wallet_chain_key (c ∷ s) =
    let rest = split_wallet_chain_key s in
    if str_eq (c ∷ []) (str "|")
    then some ([], s)
    else elim rest [ none ↦ none | some ac ↦ some (c ∷ ac.0, ac.1) ]

unfoldable pub touch_token : Str → Str → Str → Dict Str TokenAgg → Dict Str TokenAgg
touch_token chain addr symbol tokens =
    let k = token_key chain addr in
    let t = lookup_or k (record { chain = chain; address = addr; seed_symbol = [] }) tokens in
    if str_eq addr []
    then tokens
    else insert k
        (if str_eq t.seed_symbol [] && not (str_eq symbol [])
          then record t { seed_symbol = symbol }
          else t)
        tokens

-- `time.Parse(time.RFC3339, s)`, in nanoseconds from the zero time.
abbrev pub ParseTime : Type 0
ParseTime = Str → Option ℤ

abbrev pub or_zero : Option ℤ → ℤ
or_zero none = pos 0
or_zero (some t) = t

module _ {W : Type 0} where
  -- What a trade adds to its wallet's aggregate.
  unfoldable pub touch_wallet : ParseTime → DexTrade W → WalletAgg W → WalletAgg W
  touch_wallet parse tr w =
      let ts = or_zero (parse tr.block_timestamp) in
      record {
        address = w.address;
        label = if str_eq tr.trader_address_label [] then w.label else tr.trader_address_label;
        last_trade = if ltb_ℤ w.last_trade ts then ts else w.last_trade;
        bought_tokens =
            if str_eq tr.token_bought_address []
            then w.bought_tokens
            else w.bought_tokens
              ++ record {
                token_key = token_key tr.chain tr.token_bought_address;
                trade_value_usd = tr.trade_value_usd;
              }
                ∷ [];
        chains = if any (str_eq tr.chain) w.chains then w.chains else w.chains ++ tr.chain ∷ [];
      }

  -- One pass of the loop over the seed.
  unfoldable pub derive_trade :
      ParseTime
      → Dict Str (WalletAgg W) × Dict Str TokenAgg
      → DexTrade W
      → Dict Str (WalletAgg W) × Dict Str TokenAgg
  unfolding touch_wallet touch_token
  derive_trade parse (wallets, tokens) tr =
      let w =
        lookup_or tr.trader_address
          (record {
            address = tr.trader_address;
            label = [];
            last_trade = pos 0;
            bought_tokens = [];
            chains = [];
          })
          wallets in
      (
        insert tr.trader_address (touch_wallet parse tr w) wallets,
        touch_token tr.chain tr.token_sold_address tr.token_sold_symbol
            (touch_token tr.chain tr.token_bought_address tr.token_bought_symbol tokens),
      )

  unfoldable pub derive_universe :
      ParseTime → List (DexTrade W) → Dict Str (WalletAgg W) × Dict Str TokenAgg
  unfolding derive_trade
  derive_universe parse seed = fold (derive_trade parse) ([], []) seed

  unfoldable pub seed_max_timestamp : ParseTime → List (DexTrade W) → ℤ
  seed_max_timestamp parse seed =
      fold
        (λ latest tr. elim (parse tr.block_timestamp) [
          | none ↦ latest
          | some ts ↦ if ltb_ℤ latest ts then ts else latest
        ])
        (pos 0) seed

  -- One pass of the loop of seedBuys.
  unfoldable pub seed_buy : Dict Str (List (Buy W)) → DexTrade W → Dict Str (List (Buy W))
  seed_buy out tr =
      let k = token_key tr.chain tr.token_bought_address in
      if str_eq tr.token_bought_address []
      then out
      else insert k
          (lookup_or k [] out
            ++ record { value_usd = tr.trade_value_usd; amount = tr.token_bought_amount } ∷ [])
          out

  unfoldable pub seed_buys : List (DexTrade W) → Dict Str (List (Buy W))
  unfolding seed_buy
  seed_buys seed = fold seed_buy [] seed

module _ {W : Type 0} ⦃f : Float64 W⦄ where
  -- The most bought value first, then by address.
  abbrev pub rank_less : Str × W → Str × W → Bool
  rank_less a b = if not (f.eq a.1 b.1) then f.lt b.1 a.1 else str_lt a.0 b.0

  abbrev pub bought_value : WalletAgg W → W
  bought_value w = fold (λ total t. f.add total t.trade_value_usd) f.zero w.bought_tokens

  -- The tokens of the universe that a wallet bought, added to those that are kept.
  unfoldable pub keep_tokens :
      Dict Str TokenAgg → Dict Str TokenAgg → WalletAgg W → Dict Str TokenAgg
  keep_tokens tokens kept w =
      fold
        (λ ks t. elim (lookup t.token_key tokens) [
          | none ↦ ks
          | some agg ↦ insert t.token_key agg ks
        ])
        kept w.bought_tokens

  -- `max` is positive; no cap is zero.
  unfoldable pub keep_wallet :
      Dict Str (WalletAgg W)
      → Dict Str TokenAgg
      → Dict Str (WalletAgg W) × Dict Str TokenAgg
      → Str × W
      → Dict Str (WalletAgg W) × Dict Str TokenAgg
  unfolding keep_tokens
  keep_wallet wallets tokens (kept_wallets, kept_tokens) r = elim (lookup r.0 wallets) [
    | none ↦ (kept_wallets, kept_tokens)
    | some w ↦ (insert r.0 w kept_wallets, keep_tokens tokens kept_tokens w)
  ]

  unfoldable pub limit_universe :
      MapOrder
      → Dict Str (WalletAgg W)
      → Dict Str TokenAgg
      → ℕ
      → Dict Str (WalletAgg W) × Dict Str TokenAgg
  unfolding keep_wallet
  limit_universe order wallets tokens max =
      let ranged = order.shuffle (Str × WalletAgg W) 0 wallets in
      let ranking = sort_by rank_less (map (λ kv. (kv.0, bought_value kv.1)) ranged) in
      if leb max 0 || leb (length wallets) max
      then (wallets, tokens)
      else fold (keep_wallet wallets tokens) ([], []) (take max ranking)
