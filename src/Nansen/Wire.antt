-- ===== src/Nansen/Wire.antt =====
-- internal/nansen/types.go: the bodies of the requests, and the JSON that their tags give them.
use smart_money_falsifier.Base.{ℕ, List, [], ◌∷◌, Str, str}
use smart_money_falsifier.Nansen.Cache.{
  Json, Items, Fields, number, text, array, object, no_items, item, no_fields, field,
}

pub record PaginationReq : Type 0 where
  pub page : ℕ
  pub per_page : ℕ

pub record DexTradesRequest : Type 0 where
  pub chains : List Str
  pub pagination : PaginationReq

pub record DateRangeReq : Type 0 where
  pub from : Str
  pub to : Str

pub record PnlSummaryRequest : Type 0 where
  pub address : Str
  pub chain : Str
  pub date : DateRangeReq

pub record RelatedWalletsRequest : Type 0 where
  pub address : Str
  pub chain : Str

pub record FlowIntelligenceRequest : Type 0 where
  pub chain : Str
  pub token_address : Str
  pub timeframe : Str

pub record TokenInformationRequest : Type 0 where
  pub chain : Str
  pub token_address : Str
  pub timeframe : Str

pub record TokenOhlcvRequest : Type 0 where
  pub chain : Str
  pub token_address : Str
  pub timeframe : Str
  pub date : DateRangeReq

abbrev pub texts : List Str → Items
texts [] = no_items
texts (s ∷ ss) = item (text s) (texts ss)

abbrev pub fields : List (Str × Json) → Fields
fields [] = no_fields
fields ((k, x) ∷ rest) = field k x (fields rest)

unfoldable pub pagination_json : PaginationReq → Json
pagination_json r =
    object (fields ((str "page", number r.page) ∷ (str "per_page", number r.per_page) ∷ []))

unfoldable pub dex_trades_json : DexTradesRequest → Json
unfolding pagination_json
dex_trades_json r = object (
    fields (
      (str "chains", array (texts r.chains))
      ∷ (str "pagination", pagination_json r.pagination)
      ∷ []))

unfoldable pub date_range_json : DateRangeReq → Json
date_range_json r = object (fields ((str "from", text r.from) ∷ (str "to", text r.to) ∷ []))

unfoldable pub pnl_summary_json : PnlSummaryRequest → Json
unfolding date_range_json
pnl_summary_json r = object (
    fields (
      (str "address", text r.address)
      ∷ (str "chain", text r.chain)
      ∷ (str "date", date_range_json r.date)
      ∷ []))

unfoldable pub related_wallets_json : RelatedWalletsRequest → Json
related_wallets_json r =
    object (fields ((str "address", text r.address) ∷ (str "chain", text r.chain) ∷ []))

unfoldable pub flow_intelligence_json : FlowIntelligenceRequest → Json
flow_intelligence_json r = object (
    fields (
      (str "chain", text r.chain)
      ∷ (str "token_address", text r.token_address)
      ∷ (str "timeframe", text r.timeframe)
      ∷ []))

unfoldable pub token_information_json : TokenInformationRequest → Json
token_information_json r = object (
    fields (
      (str "chain", text r.chain)
      ∷ (str "token_address", text r.token_address)
      ∷ (str "timeframe", text r.timeframe)
      ∷ []))

unfoldable pub token_ohlcv_json : TokenOhlcvRequest → Json
unfolding date_range_json
token_ohlcv_json r = object (
    fields (
      (str "chain", text r.chain)
      ∷ (str "token_address", text r.token_address)
      ∷ (str "timeframe", text r.timeframe)
      ∷ (str "date", date_range_json r.date)
      ∷ []))
