-- ===== src/Nansen/Endpoints.antt =====
-- internal/nansen/types.go: the endpoints and what a call of each costs.
use smart_money_falsifier.Base.{ℕ, [], ◌∷◌, Str, str, str_key, Dict, lookup_or}

abbrev pub path_smart_money_dex_trades : Str
path_smart_money_dex_trades = str "smart-money/dex-trades"

abbrev pub path_profiler_pnl_summary : Str
path_profiler_pnl_summary = str "profiler/address/pnl-summary"

abbrev pub path_profiler_related_wallets : Str
path_profiler_related_wallets = str "profiler/address/related-wallets"

abbrev pub path_tgm_flow_intelligence : Str
path_tgm_flow_intelligence = str "tgm/flow-intelligence"

abbrev pub path_tgm_token_information : Str
path_tgm_token_information = str "tgm/token-information"

abbrev pub path_tgm_token_ohlcv : Str
path_tgm_token_ohlcv = str "tgm/token-ohlcv"

unfoldable pub credit_costs : Dict Str ℕ
credit_costs =
    (path_smart_money_dex_trades, 5)
    ∷ (path_profiler_pnl_summary, 1)
    ∷ (path_profiler_related_wallets, 1)
    ∷ (path_tgm_flow_intelligence, 1)
    ∷ (path_tgm_token_information, 1)
    ∷ (path_tgm_token_ohlcv, 1)
    ∷ []

-- `CreditCost[path]`: nothing for a path that the map does not have.
unfoldable pub credit_cost : Str → ℕ
unfolding credit_costs
credit_cost path = lookup_or path 0 credit_costs
