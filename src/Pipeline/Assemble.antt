-- ===== src/Pipeline/Assemble.antt =====
-- internal/pipeline/pipeline.go, the second half of Run: from what the calls returned to the wallets,
-- the tokens and the report of each token. The fields of a response that Run does not read are left out.
pub mod Judged
pub mod Reported
use smart_money_falsifier.Base.{
  ℕ, Bool, true, false, not, ◌&&◌, Option, none, some, List, [], ◌∷◌, ◌++◌, map, if◌then◌else◌, ltb,
  ◌==◌, any, select, fold, Str, str, str_eq, str_lt, str_key, Dict, lookup, lookup_or, insert,
  MapOrder, sort_by, ℤ,
}
use smart_money_falsifier.Float.{Float64}
use smart_money_falsifier.Score.Verdict.{Verdict}
use smart_money_falsifier.Score.Cluster.{Funder, BuyerInput, ClusterGroup, ClusterResult, cluster}
use smart_money_falsifier.Score.Move.{Move}
use smart_money_falsifier.Score.Wallets.{WalletInput, TokenInput, WalletTokenTrade}
use smart_money_falsifier.Pipeline.Floor.{decide_with_floor, verdict_severity}
use smart_money_falsifier.Pipeline.Universe.{WalletAgg, TokenAgg}

pub record RelatedWallet : Type 0 where
  pub address : Str
  pub address_label : Str
  pub relation : Str

pub record PnlSummary (W : Type 0) : Type 0 where
  pub realized_pnl_usd : W
  pub win_rate : W

pub record FlowIntelligence (W : Type 0) : Type 0 where
  pub smart_trader_net_flow_usd : W
  pub exchange_net_flow_usd : W
  pub exchange_avg_flow_usd : Option W

pub record TokenInformation (W : Type 0) : Type 0 where
  pub name : Str
  pub symbol : Str
  pub liquidity_usd : Option W

pub record WalletEnrichment (W : Type 0) : Type 0 where
  pub pnl : Option (PnlSummary W)
  pub related_wallets : List RelatedWallet
  pub related_ok : Bool

pub record TokenEnrichment (W : Type 0) : Type 0 where
  pub flow : Option (List (FlowIntelligence W))
  pub info : Option (TokenInformation W)

pub record TokenReport (W : Type 0) : Type 0 where
  pub key : Str
  pub chain : Str
  pub address : Str
  pub symbol : Str
  pub name : Str
  pub verdict : Verdict
  pub n : ℕ
  pub m : ℕ
  pub covered : ℕ
  pub smart_trader_net_flow_usd : W
  pub exchange_net_flow_usd : W
  pub flow_available : Bool
  pub exchange_observed : Bool
  pub smart_bought_usd : W
  pub move : Option (Move W)
  pub liquidity_usd : Option W
  pub clusters : List (ClusterGroup W)

abbrev pub first_funder : Str
first_funder = str "First Funder"

-- The loop that fills `walletFunders`: the first edge of each funder, and no other relation.
unfoldable pub first_funders : List Str → List RelatedWallet → List Funder
first_funders seen [] = []
first_funders seen (rel ∷ rels) =
    let skipped = first_funders seen rels in
    let taken = first_funders (rel.address ∷ seen) rels in
    if not (str_eq rel.relation first_funder)
    then skipped
    else if any (str_eq rel.address) seen
    then skipped
    else record { address = rel.address; label = rel.address_label } ∷ taken

module _ {W : Type 0} ⦃f : Float64 W⦄ where
  abbrev pub bare_token : Str → TokenAgg → TokenInput W
  bare_token k agg = record {
    key = k;
    symbol = agg.seed_symbol;
    name = [];
    smart_trader_net_flow_usd = f.zero;
    exchange_net_flow_usd = f.zero;
    flow_available = false;
    exchange_observed = false;
    liquidity_usd = none;
  }

  -- The first row of the flow, if there is one.
  unfoldable pub with_flow : Option (List (FlowIntelligence W)) → TokenInput W → TokenInput W
  with_flow none ti = ti
  with_flow (some []) ti = ti
  with_flow (some (fi ∷ _)) ti = record ti {
    smart_trader_net_flow_usd = fi.smart_trader_net_flow_usd;
    exchange_net_flow_usd = fi.exchange_net_flow_usd;
    flow_available = true;
    exchange_observed = elim fi.exchange_avg_flow_usd [ none ↦ false | some x ↦ true ];
  }

  unfoldable pub with_info : Option (TokenInformation W) → TokenInput W → TokenInput W
  with_info none ti = ti
  with_info (some info) ti = record ti {
    symbol = if str_eq info.symbol [] then ti.symbol else info.symbol;
    name = info.name;
    liquidity_usd = info.liquidity_usd;
  }

  unfoldable pub token_input : Str → TokenAgg → Option (TokenEnrichment W) → TokenInput W
  unfolding with_flow with_info
  token_input k agg none = bare_token k agg
  token_input k agg (some e) = with_info e.info (with_flow e.flow (bare_token k agg))

  abbrev pub no_enrichment : WalletEnrichment W
  no_enrichment = record { pnl = none; related_wallets = []; related_ok = false }

  abbrev pub no_pnl : PnlSummary W
  no_pnl = record { realized_pnl_usd = f.zero; win_rate = f.zero }

  abbrev pub pnl_or : Option (PnlSummary W) → PnlSummary W
  pnl_or none = no_pnl
  pnl_or (some p) = p

  unfoldable pub wallet_input : Str → WalletAgg W → Option (WalletEnrichment W) → WalletInput W
  unfolding first_funders
  wallet_input addr agg none = record {
    address = addr;
    label = agg.label;
    realized_pnl_usd = f.zero;
    win_rate = f.zero;
    funders = [];
    funder_checked = false;
    last_trade_time = agg.last_trade;
    bought_tokens = agg.bought_tokens;
  }
  wallet_input addr agg (some e) = record {
    address = addr;
    label = agg.label;
    realized_pnl_usd = (pnl_or e.pnl).realized_pnl_usd;
    win_rate = (pnl_or e.pnl).win_rate;
    funders = first_funders [] e.related_wallets;
    funder_checked = e.related_ok;
    last_trade_time = agg.last_trade;
    bought_tokens = agg.bought_tokens;
  }

  unfoldable pub wallet_inputs :
      MapOrder → Dict Str (WalletAgg W) → Dict Str (WalletEnrichment W) → List (WalletInput W)
  unfolding wallet_input
  wallet_inputs order aggs results =
      map (λ kv. wallet_input kv.0 kv.1 (lookup kv.0 results))
        (order.shuffle (Str × WalletAgg W) 10 aggs)

  -- What one wallet adds to `tokenBuyers` and `tokenBoughtUSD`; `seen` are its tokens so far.
  unfoldable pub buy_token :
      Str
      → List Str × (Dict Str (List Str) × Dict Str W)
      → WalletTokenTrade W
      → List Str × (Dict Str (List Str) × Dict Str W)
  buy_token addr (seen, (buyers, usd)) bt =
      let usd' =
        insert bt.token_key (f.add (lookup_or bt.token_key f.zero usd) bt.trade_value_usd) usd in
      if any (str_eq bt.token_key) seen then (seen, (buyers, usd')) else (
        bt.token_key ∷ seen,
        (insert bt.token_key (lookup_or bt.token_key [] buyers ++ addr ∷ []) buyers, usd'),
      )

  unfoldable pub token_buyers : MapOrder → Dict Str (WalletAgg W) → Dict Str (List Str) × Dict Str W
  unfolding buy_token
  token_buyers order aggs =
      fold (λ state kv. (fold (buy_token kv.0) ([], state) kv.1.bought_tokens).1) ([], [])
        (order.shuffle (Str × WalletAgg W) 11 aggs)

  -- A wallet as a buyer; an address that is in no wallet gives the zero buyer.
  unfoldable pub buyer_input : List (WalletInput W) → Str → BuyerInput W
  buyer_input [] addr = record {
    address = [];
    label = [];
    pnl_usd = f.zero;
    win_rate = f.zero;
    funders = [];
    funder_checked = false;
  }
  buyer_input (w ∷ ws) addr =
      let later = buyer_input ws addr in
      if str_eq w.address addr
      then record {
        address = w.address;
        label = w.label;
        pnl_usd = w.realized_pnl_usd;
        win_rate = w.win_rate;
        funders = w.funders;
        funder_checked = w.funder_checked;
      }
      else later

  -- The report of one token, from its buyers' addresses and what they spent.
  unfoldable pub token_report :
      MapOrder
      → W
      → List (WalletInput W)
      → List Str
      → W
      → Str
      → TokenAgg
      → TokenInput W
      → TokenReport W
  unfolding buyer_input cluster decide_with_floor
  token_report order min_signal_usd wallets addrs bought_usd k agg ti =
      let cr = cluster order (map (buyer_input wallets) (sort_by str_lt addrs)) in
      let exit_checkable = ti.flow_available && ti.exchange_observed in
      record {
        key = k;
        chain = agg.chain;
        address = agg.address;
        symbol = if str_eq ti.symbol [] then agg.address else ti.symbol;
        name = ti.name;
        verdict =
            decide_with_floor cr.n cr.m cr.covered ti.smart_trader_net_flow_usd
              ti.exchange_net_flow_usd exit_checkable bought_usd min_signal_usd;
        n = cr.n;
        m = cr.m;
        covered = cr.covered;
        smart_trader_net_flow_usd = ti.smart_trader_net_flow_usd;
        exchange_net_flow_usd = ti.exchange_net_flow_usd;
        flow_available = ti.flow_available;
        exchange_observed = ti.exchange_observed;
        smart_bought_usd = bought_usd;
        move = none;
        liquidity_usd = ti.liquidity_usd;
        clusters = cr.clusters;
      }

  -- The most concerning first, then the most buyers, then by key.
  abbrev pub report_less : TokenReport W → TokenReport W → Bool
  report_less a b =
      if not (verdict_severity a.verdict == verdict_severity b.verdict)
      then ltb (verdict_severity a.verdict) (verdict_severity b.verdict)
      else if not (a.n == b.n)
      then ltb b.n a.n
      else str_lt a.key b.key

  unfoldable pub token_reports :
      MapOrder
      → W
      → Dict Str (WalletAgg W)
      → Dict Str TokenAgg
      → Dict Str (WalletEnrichment W)
      → Dict Str (TokenEnrichment W)
      → List (TokenReport W)
  unfolding token_buyers token_report wallet_inputs token_input verdict_severity
  token_reports order min_signal_usd wallet_aggs token_aggs wallet_results token_results =
      let wallets = wallet_inputs order wallet_aggs wallet_results in
      let (buyers, usd) = token_buyers order wallet_aggs in
      sort_by report_less (
        map
          (λ kv.
            token_report order min_signal_usd wallets (lookup_or kv.0 [] buyers)
              (lookup_or kv.0 f.zero usd) kv.0 kv.1
              (token_input kv.0 kv.1 (lookup kv.0 token_results)))
          (order.shuffle (Str × TokenAgg) 12 token_aggs))
