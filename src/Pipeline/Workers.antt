-- ===== src/Pipeline/Workers.antt =====
-- internal/pipeline/pipeline.go: runPool and the calls of Run. A call's effects are one step; the steps
-- of the workers happen in any order, which `order` picks. What a request's body, key and decoding are
-- is a parameter, `Requests`.
pub mod Cancelled
pub mod Offline
use smart_money_falsifier.Base.{
  ℕ, suc, ◌+◌, Bool, true, false, not, ◌&&◌, ◌||◌, Option, none, some, List, [], ◌∷◌, ◌++◌, map,
  if◌then◌else◌, fold, keys, Str, str, str_lt, str_key, Dict, lookup, lookup_or, insert, MapOrder,
  sort_by, ℤ, pos, ltb_ℤ,
}
use smart_money_falsifier.Float.{Float64}
use smart_money_falsifier.Nansen.Client.{World, Client, Call, Error, Outcome, done, failed, do_call}
use smart_money_falsifier.Pipeline.Universe.{
  WalletAgg, TokenAgg, split_wallet_chain_key, wallet_chain_key,
}
use smart_money_falsifier.Pipeline.Assemble.{
  RelatedWallet, PnlSummary, FlowIntelligence, TokenInformation, WalletEnrichment, TokenEnrichment,
  TokenReport,
}

pub record Failure : Type 0 where
  pub stage : Str
  pub key : Str
  pub err : Error

pub record Requests (W : Type 0) : Type 0 where
  pub pnl : Str → Call (PnlSummary W)
  pub related : Str → Str → Call (List RelatedWallet)
  pub flow : Str → Str → Call (List (FlowIntelligence W))
  pub info : Str → Str → Call (TokenInformation W)

-- What the stages share: the client, the results, the failures, and the reports once they are there.
pub record Shared (W : Type 0) : Type 0 where
  pub client : Client
  pub wallets : Dict Str (WalletEnrichment W)
  pub tokens : Dict Str (TokenEnrichment W)
  pub failures : List Failure
  pub reports : List (TokenReport W)

-- `p.Client.CreditsRemaining() < 0`
abbrev pub is_blind : {W : Type 0} → Shared W → Bool
is_blind s = ltb_ℤ s.client.balance.credits_remaining (pos 0)

-- The items that the second loop hands to workers; `cancelled k` is that it sees the context done
-- before item `k`.
unfoldable pub dispatch : (ℕ → Bool) → ℕ → List Str → List Str
dispatch cancelled k [] = []
dispatch cancelled k (x ∷ xs) = if cancelled k then [] else x ∷ dispatch cancelled (suc k) xs

-- `addr, chain, _ := splitWalletChainKey(item)`
abbrev pub address_of : Option (Str × Str) → Str × Str
address_of none = ([], [])
address_of (some p) = p

module _ {W : Type 0} (order : MapOrder) (cancelled : ℕ → Bool)
    (fn : Shared W → Str → Shared W) where
  -- The state after the pool, and the items that it ran.
  unfoldable pub pool_from : ℕ → List Str → Shared W → Shared W × List Str
  unfolding dispatch
  pool_from k [] s = (s, [])
  pool_from k (x ∷ xs) s =
      let ran = order.shuffle Str k (dispatch cancelled k (x ∷ xs)) in
      let (s', rest) = pool_from (suc k) xs (fn s x) in
      if is_blind s then if cancelled k then (s, []) else (s', x ∷ rest) else (fold fn s ran, ran)

  unfoldable pub run_pool : List Str → Shared W → Shared W × List Str
  unfolding pool_from
  run_pool items s = pool_from 0 items s

module _ {W : Type 0} where
  abbrev pub record_failure : Str → Str → Error → Shared W → Shared W
  record_failure stage key e s = record s {
    failures = s.failures ++ record { stage = stage; key = key; err = e } ∷ [];
  }

  unfoldable pub fetch_pnl : World → Requests W → Shared W → Str → Shared W
  unfolding do_call
  fetch_pnl w requests s addr =
      let (c, out) = do_call w (requests.pnl addr) s.client in
      let s₁ = record s { client = c } in
      let res =
        lookup_or addr (record { pnl = none; related_wallets = []; related_ok = false })
          s.wallets in
      elim out [
        | failed e ↦ record_failure (str "wallet:pnl-summary") addr e s₁
        | done cached pnl ↦ record s₁ {
          wallets = insert addr (record res { pnl = some pnl }) s.wallets;
        }
      ]

  unfoldable pub fetch_related : World → Requests W → Shared W → Str → Shared W
  unfolding do_call split_wallet_chain_key
  fetch_related w requests s item =
      let (addr, chain) = address_of (split_wallet_chain_key item) in
      let (c, out) = do_call w (requests.related addr chain) s.client in
      let s₁ = record s { client = c } in
      let res =
        lookup_or addr (record { pnl = none; related_wallets = []; related_ok = false })
          s.wallets in
      elim out [
        | failed e ↦
            record_failure (str "wallet:related-wallets") item e
              (record s₁ { wallets = insert addr (record res { related_ok = false }) s.wallets })
        | done cached rels ↦ record s₁ {
          wallets =
              insert addr (record res { related_wallets = res.related_wallets ++ rels }) s.wallets;
        }
      ]

  abbrev pub empty_token : TokenEnrichment W
  empty_token = record { flow = none; info = none }

  unfoldable pub fetch_flow : World → Requests W → Str → TokenAgg → Shared W → Shared W
  unfolding do_call
  fetch_flow w requests k agg s =
      let (c, out) = do_call w (requests.flow agg.chain agg.address) s.client in
      let s₁ = record s { client = c } in
      let res = lookup_or k empty_token s.tokens in
      elim out [
        | failed e ↦ record_failure (str "token:flow-intelligence") k e s₁
        | done cached flow ↦ record s₁ {
          tokens = insert k (record res { flow = some flow }) s.tokens;
        }
      ]

  unfoldable pub fetch_info : World → Requests W → Str → TokenAgg → Shared W → Shared W
  unfolding do_call
  fetch_info w requests k agg s =
      let (c, out) = do_call w (requests.info agg.chain agg.address) s.client in
      let s₁ = record s { client = c } in
      let res = lookup_or k empty_token s.tokens in
      elim out [
        | failed e ↦ record_failure (str "token:token-information") k e s₁
        | done cached info ↦ record s₁ {
          tokens = insert k (record res { info = some info }) s.tokens;
        }
      ]

  unfoldable pub fetch_token : World → Requests W → Dict Str TokenAgg → Shared W → Str → Shared W
  unfolding fetch_flow fetch_info
  fetch_token w requests aggs s k =
      let agg = lookup_or k (record { chain = []; address = []; seed_symbol = [] }) aggs in
      fetch_info w requests k agg (fetch_flow w requests k agg s)

  -- `walletResults` as Run makes it.
  unfoldable pub initial_results : Dict Str (WalletAgg W) → Dict Str (WalletEnrichment W)
  initial_results aggs =
      map (λ kv. (kv.0, record { pnl = none; related_wallets = []; related_ok = true })) aggs

  -- `relatedItems`, in the order in which the pool takes them.
  unfoldable pub related_items : Dict Str (WalletAgg W) → List Str
  related_items aggs =
      sort_by str_lt (fold (λ items kv. items ++ map (wallet_chain_key kv.0) kv.1.chains) [] aggs)

  -- The three pools of Run, one after the other.
  unfoldable pub enrich :
      World
      → Requests W
      → MapOrder
      → (ℕ → ℕ → Bool)
      → Dict Str (WalletAgg W)
      → Dict Str TokenAgg
      → Client
      → Shared W
  unfolding run_pool fetch_pnl fetch_related fetch_token initial_results related_items
  enrich w requests order cancelled wallet_aggs token_aggs c =
      let s₀ : Shared W = record {
        client = c;
        wallets = initial_results wallet_aggs;
        tokens = map (λ kv. (kv.0, empty_token)) token_aggs;
        failures = [];
        reports = [];
      } in
      let s₁ =
        (run_pool order (cancelled 0) (fetch_pnl w requests) (sort_by str_lt (keys wallet_aggs))
          s₀).0 in
      let s₂ =
        (run_pool order (cancelled 1) (fetch_related w requests) (related_items wallet_aggs)
          s₁).0 in
      (run_pool order (cancelled 2) (fetch_token w requests token_aggs)
        (sort_by str_lt (keys token_aggs)) s₂).0
