-- ===== src/Pipeline/Run.antt =====
-- internal/pipeline/pipeline.go: attachMoves, and Run as the sequence of its stages. A nil result of a
-- lookup that Run never makes is written out as no change.
pub mod Moves
pub mod Offline
use smart_money_falsifier.Base.{
  ℕ, zero, suc, Bool, true, false, not, ◌&&◌, ◌||◌, Option, none, some, List, [], ◌∷◌, map,
  if◌then◌else◌, fold, select, enumerate, length, ◌==◌, Str, str, str_eq, str_lt, str_key, Dict,
  lookup, lookup_or, insert, MapOrder, sort_by, ℤ,
}
use smart_money_falsifier.Float.{Float64}
use smart_money_falsifier.Nansen.Client.{World, Client, Call, Error, Outcome, done, failed, do_call}
use smart_money_falsifier.Score.Verdict.{Verdict, weak}
use smart_money_falsifier.Score.Move.{Buy, Candle, Move, compute_move}
use smart_money_falsifier.Score.Cluster.{BuyerInput}
use smart_money_falsifier.Score.Census.{FunderCensus, compute_funder_census}
use smart_money_falsifier.Score.Wallets.{WalletInput, TokenInput, WalletScore, score_wallets}
use smart_money_falsifier.Pipeline.Universe.{
  DexTrade, ParseTime, derive_universe, limit_universe, seed_max_timestamp, seed_buys, TokenAgg,
}
use smart_money_falsifier.Pipeline.Assemble.{TokenReport, token_reports, token_input, wallet_inputs}
use smart_money_falsifier.Pipeline.Workers.{
  Failure, Requests, Shared, run_pool, enrich, record_failure,
}

pub record OhlcvCandle (W : Type 0) : Type 0 where
  pub interval_start : Str
  pub high : Option W
  pub close : Option W

abbrev pub is_weak : Verdict → Bool
is_weak weak = true
is_weak _ = false

-- The failures by stage, then by key.
abbrev pub failure_less : Failure → Failure → Bool
failure_less a b =
    if not (str_eq a.stage b.stage) then str_lt a.stage b.stage else str_lt a.key b.key

-- `xs[i]`
abbrev pub nth : {A : Type 0} → List A → ℕ → Option A
nth [] i = none
nth (x ∷ xs) zero = some x
nth (x ∷ xs) (suc i) = nth xs i

module _ {W : Type 0} ⦃f : Float64 W⦄ where
  -- `reports[i].Move = &m`, where a move was found
  unfoldable pub set_move : ℕ → Option (Move W) → List (TokenReport W) → List (TokenReport W)
  set_move i none reports = reports
  set_move i (some m) [] = []
  set_move zero (some m) (r ∷ rs) = record r { move = some m } ∷ rs
  set_move (suc i) (some m) (r ∷ rs) = r ∷ set_move i (some m) rs

  -- The reports that are priced: those with a verdict and a buy.
  unfoldable pub is_priced : Dict Str (List (Buy W)) → TokenReport W → Bool
  is_priced buys tr = not (is_weak tr.verdict || length (lookup_or tr.key [] buys) == 0)

  unfoldable pub to_price :
      Dict Str (List (Buy W)) → List (TokenReport W) → List (ℕ × TokenReport W)
  unfolding is_priced
  to_price buys reports = select (λ ir. is_priced buys ir.1) (enumerate reports)

  -- The candles of a response, oldest first.
  unfoldable pub candles_of : List (OhlcvCandle W) → List (Candle W)
  candles_of rows =
      map (λ c. record { high = c.high; close = c.close })
        (sort_by (λ a b. str_lt a.interval_start b.interval_start) rows)

  unfoldable pub fetch_move :
      World
      → (Str → Str → Call (List (OhlcvCandle W)))
      → Dict Str (List (Buy W))
      → Dict Str ℕ
      → Shared W
      → Str
      → Shared W
  unfolding do_call candles_of compute_move set_move
  fetch_move w ohlcv buys idx s k =
      let i = lookup_or k 0 idx in
      elim (nth s.reports i) [
        | none ↦ s
        | some tr ↦
            let (c, out) = do_call w (ohlcv tr.chain tr.address) s.client in
            let s₁ = record s { client = c } in
            elim out [
              | failed e ↦ record_failure (str "token:token-ohlcv") k e s₁
              | done cached rows ↦ record s₁ {
                reports =
                    set_move i (compute_move (lookup_or k [] buys) (candles_of rows)) s.reports;
              }
            ]
      ]

  unfoldable pub attach_moves :
      World
      → (Str → Str → Call (List (OhlcvCandle W)))
      → MapOrder
      → (ℕ → Bool)
      → List (DexTrade W)
      → Shared W
      → Shared W
  unfolding seed_buys to_price fetch_move run_pool
  attach_moves w ohlcv order cancelled seed s =
      let buys = seed_buys seed in
      let priced = to_price buys s.reports in
      let idx = fold (λ d ir. insert ir.1.key ir.0 d) [] priced in
      (run_pool order cancelled (fetch_move w ohlcv buys idx) (map (λ ir. ir.1.key) priced) s).0

pub record Result (W : Type 0) : Type 0 where
  pub seed : List (DexTrade W)
  pub wallets : List (WalletInput W)
  pub tokens : List (TokenInput W)
  pub failures : List Failure
  pub wallet_count : ℕ
  pub token_count : ℕ
  pub ranked_wallets : List (WalletScore W)
  pub min_signal_usd : W
  pub token_reports : List (TokenReport W)
  pub census : FunderCensus

module _ {W : Type 0} ⦃f : Float64 W⦄ (w : World) (requests : Requests W) (order : MapOrder)
    (parse : ParseTime) where
  -- Run after the seed is there. `cancelled` has one row for each pool.
  unfoldable pub run_from :
      (Str → Str → Call (List (OhlcvCandle W)))
      → (ℕ → ℕ → Bool)
      → ℕ
      → W
      → List (DexTrade W)
      → Client
      → Client × Result W
  unfolding derive_universe limit_universe seed_max_timestamp enrich token_reports attach_moves
      compute_funder_census score_wallets wallet_inputs token_input
  run_from ohlcv cancelled max_wallets min_signal seed c =
      let (all_wallets, all_tokens) = derive_universe parse seed in
      let (wallet_aggs, token_aggs) = limit_universe order all_wallets all_tokens max_wallets in
      let s = enrich w requests order cancelled wallet_aggs token_aggs c in
      let tokens =
        map (λ kv. token_input kv.0 kv.1 (lookup kv.0 s.tokens))
          (order.shuffle (Str × TokenAgg) 9 token_aggs) in
      let wallets = wallet_inputs order wallet_aggs s.wallets in
      let reports = token_reports order min_signal wallet_aggs token_aggs s.wallets s.tokens in
      let s' = attach_moves w ohlcv order (cancelled 3) seed (record s { reports = reports }) in
      (
        s'.client,
        record {
          seed = seed;
          wallets = wallets;
          tokens = tokens;
          failures = sort_by failure_less s'.failures;
          wallet_count = length wallet_aggs;
          token_count = length token_aggs;
          ranked_wallets = score_wallets order wallets tokens (seed_max_timestamp parse seed);
          min_signal_usd = min_signal;
          token_reports = s'.reports;
          census = compute_funder_census order (
              map
                (λ wi. record {
                  address = wi.address;
                  label = wi.label;
                  pnl_usd = f.zero;
                  win_rate = f.zero;
                  funders = wi.funders;
                  funder_checked = false;
                })
                wallets);
        },
      )

  -- Run: the seed's error, or the result.
  unfoldable pub run :
      Call (List (DexTrade W))
      → (Str → Str → Call (List (OhlcvCandle W)))
      → (ℕ → ℕ → Bool)
      → ℕ
      → W
      → Client
      → Client × Outcome (Result W)
  unfolding do_call run_from
  run seed_call ohlcv cancelled max_wallets min_signal c =
      let (c₁, out) = do_call w seed_call c in
      elim out [
        | failed e ↦ (c₁, failed e)
        | done cached seed ↦
            let (c₂, result) = run_from ohlcv cancelled max_wallets min_signal seed c₁ in
            (c₂, done false result)
      ]
