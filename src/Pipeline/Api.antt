-- ===== src/Pipeline/Api.antt =====
-- internal/pipeline: the requests of Run and Plan as calls of the client, the seed fixture
-- (seed_import.go), and the settings that New gives. How a response body is decoded is a parameter.
pub mod Cuts
mod Kinds
pub mod Keys
use smart_money_falsifier.Base.{
  ℕ, suc, Bool, true, false, Option, none, some, List, [], ◌∷◌, ◌++◌, if◌then◌else◌, ◌||◌, any,
  str_eq, ltb, Str, str, str_key, Dict, lookup, insert,
}
use smart_money_falsifier.Float.{Float64}
use smart_money_falsifier.Score.Verdict.{min_signal_usd}
use smart_money_falsifier.Nansen.Cache.{Json, JsonText, cache_key}
use smart_money_falsifier.Nansen.Client.{Call, has}
use smart_money_falsifier.Nansen.Endpoints.{
  path_smart_money_dex_trades, path_profiler_pnl_summary, path_profiler_related_wallets,
  path_tgm_flow_intelligence, path_tgm_token_information, path_tgm_token_ohlcv,
}
use smart_money_falsifier.Nansen.Wire.{
  PaginationReq, DexTradesRequest, DateRangeReq, PnlSummaryRequest, RelatedWalletsRequest,
  FlowIntelligenceRequest, TokenInformationRequest, TokenOhlcvRequest, dex_trades_json,
  pnl_summary_json, related_wallets_json, flow_intelligence_json, token_information_json,
  token_ohlcv_json,
}
use smart_money_falsifier.Pipeline.Assemble.{
  PnlSummary, RelatedWallet, FlowIntelligence, TokenInformation,
}
use smart_money_falsifier.Pipeline.Universe.{DexTrade}
use smart_money_falsifier.Pipeline.Workers.{Requests}
use smart_money_falsifier.Pipeline.Run.{OhlcvCandle}

abbrev pub default_date_from : Str
default_date_from = str "2026-06-22"

abbrev pub default_date_to : Str
default_date_to = str "2026-09-22"

abbrev pub move_timeframe : Str
move_timeframe = str "1h"

abbrev pub move_date_from : Str
move_date_from = str "2026-09-21"

abbrev pub move_date_to : Str
move_date_to = str "2026-09-23"

-- What New and main leave in a Pipeline besides its client.
pub record Settings (W : Type 0) : Type 0 where
  pub concurrency : ℕ
  pub max_wallets : ℕ
  pub date_from : Str
  pub date_to : Str
  pub min_signal_usd : W

unfoldable pub new_pipeline : {W : Type 0} ⦃f : Float64 W⦄ → ℕ → Settings W
new_pipeline concurrency = record {
  concurrency = if ltb concurrency 1 then 1 else concurrency;
  max_wallets = 0;
  date_from = default_date_from;
  date_to = default_date_to;
  min_signal_usd = min_signal_usd;
}

unfoldable pub seed_request : DexTradesRequest
seed_request = record { chains = str "all" ∷ []; pagination = record { page = 1; per_page = 1000 } }

unfoldable pub move_request : Str → Str → TokenOhlcvRequest
move_request chain address = record {
  chain = chain;
  token_address = address;
  timeframe = move_timeframe;
  date = record { from = move_date_from; to = move_date_to };
}

-- The requests that Run and Plan make, by what tells them apart.
pub data Request : Type 0 where
  seed : Request
  pnl : Str → Request
  related flow info ohlcv : Str → Str → Request

unfoldable pub path_of : Request → Str
path_of seed = path_smart_money_dex_trades
path_of (pnl address) = path_profiler_pnl_summary
path_of (related address chain) = path_profiler_related_wallets
path_of (flow chain address) = path_tgm_flow_intelligence
path_of (info chain address) = path_tgm_token_information
path_of (ohlcv chain address) = path_tgm_token_ohlcv

-- The body of a request, between the dates of the pipeline.
unfoldable pub body_of : Str → Str → Request → Json
unfolding dex_trades_json pnl_summary_json related_wallets_json flow_intelligence_json
    token_information_json token_ohlcv_json seed_request move_request
body_of from to seed = dex_trades_json seed_request
body_of from to (pnl address) =
    pnl_summary_json
      (record { address = address; chain = str "all"; date = record { from = from; to = to } })
body_of from to (related address chain) =
    related_wallets_json (record { address = address; chain = chain })
body_of from to (flow chain address) =
    flow_intelligence_json (record { chain = chain; token_address = address; timeframe = str "1d" })
body_of from to (info chain address) =
    token_information_json (record { chain = chain; token_address = address; timeframe = str "1d" })
body_of from to (ohlcv chain address) = token_ohlcv_json (move_request chain address)

module _ (j : JsonText) (sha : Str → Str) where
  unfoldable pub request_key : Str → Str → Request → Str
  unfolding path_of body_of cache_key
  request_key from to r = cache_key j sha (path_of r) (body_of from to r)

  -- `client.Do(ctx, path, body, out)`
  unfoldable pub api_call : {Out : Type 0} → (Str → Option Out) → Str → Str → Request → Call Out
  unfolding path_of request_key
  api_call decode from to r = record {
    path = path_of r;
    key = some (request_key from to r);
    decode = decode;
  }

-- `json.Unmarshal` into each of the response types.
pub record Decoders (W : Type 0) : Type 0 where
  pub trades : Str → Option (List (DexTrade W))
  pub pnl_summary : Str → Option (PnlSummary W)
  pub related_wallets : Str → Option (List RelatedWallet)
  pub flow_intelligence : Str → Option (List (FlowIntelligence W))
  pub token_information : Str → Option (TokenInformation W)
  pub token_ohlcv : Str → Option (List (OhlcvCandle W))

module _ {W : Type 0} (j : JsonText) (sha : Str → Str) (d : Decoders W) where
  unfoldable pub api_requests : Str → Str → Requests W
  unfolding api_call
  api_requests from to = record {
    pnl = λ address. api_call j sha d.pnl_summary from to (pnl address);
    related = λ address chain. api_call j sha d.related_wallets from to (related address chain);
    flow = λ chain address. api_call j sha d.flow_intelligence from to (flow chain address);
    info = λ chain address. api_call j sha d.token_information from to (info chain address);
  }

  unfoldable pub seed_call : Str → Str → Call (List (DexTrade W))
  unfolding api_call
  seed_call from to = api_call j sha d.trades from to seed

  unfoldable pub ohlcv_call : Str → Str → Str → Str → Call (List (OhlcvCandle W))
  unfolding api_call
  ohlcv_call from to chain address = api_call j sha d.token_ohlcv from to (ohlcv chain address)

-- `os.ReadFile` of the fixture.
pub data Fixture : Type 0 where
  absent unreadable : Fixture
  holds : Str → Fixture

-- ImportSeedFixture on the files of the cache, those that cannot be read and what the others hold: the cache after it, and whether it returns nil. Its key does
-- not depend on the dates.
unfoldable pub import_seed_fixture :
    JsonText → (Str → Str) → (Str → Bool) → List Str → Fixture → Dict Str Str → Dict Str Str × Bool
unfolding request_key
import_seed_fixture j sha put_fails unread fixture cache =
    let key = request_key j sha [] [] seed in
    if has (lookup key cache) || any (str_eq key) unread then (cache, true) else elim fixture [
      | absent ↦ (cache, true)
      | unreadable ↦ (cache, false)
      | holds raw ↦ if put_fails key then (cache, false) else (insert key raw cache, true)
    ]
