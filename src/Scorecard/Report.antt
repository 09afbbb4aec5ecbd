-- ===== src/Scorecard/Report.antt =====
-- cmd/scorecard/report.go, writeReport: the data of the HTML report. `now` is what nowRFC3339 returns. A
-- row's `int(w.Score * 100)` is an integer.
pub mod Rows
use smart_money_falsifier.Base.{
  ℕ, suc, ◌+◌, Bool, true, false, not, ◌||◌, Option, none, some, List, [], ◌∷◌, ◌++◌, map,
  if◌then◌else◌, leb, length, take, enumerate, Str, str, str_key, Dict, lookup_or, ℤ,
}
use smart_money_falsifier.Float.{Float64}
use smart_money_falsifier.Score.Cluster.{BuyerInput, ClusterGroup}
use smart_money_falsifier.Score.Census.{FunderCount}
use smart_money_falsifier.Score.Wallets.{WalletScore}
use smart_money_falsifier.Pipeline.Assemble.{TokenReport}
use smart_money_falsifier.Pipeline.Run.{Result, is_weak}
use smart_money_falsifier.Scorecard.Format.{FloatText}
use smart_money_falsifier.Scorecard.Headline.{census_headline}
use smart_money_falsifier.Scorecard.Labels.{
  verdict_class, verdict_label_html, independence_class, independence_label_html, format_signed_usd,
  exch_flow_class, smart_flow_class, format_usd, funder_description, move_label, move_class,
}
use smart_money_falsifier.Scorecard.Table.{wallet_by_addr, weak_count}

pub record ReportWalletRow (W : Type 0) : Type 0 where
  pub rank : ℕ
  pub address : Str
  pub label : Str
  pub score : W
  pub score_pct : ℤ
  pub pnl_usd : W
  pub win_rate : W

pub record ReportMemberRow (W : Type 0) : Type 0 where
  pub address : Str
  pub label : Str
  pub pnl_usd : W
  pub win_rate : W

pub record ReportClusterRow (W : Type 0) : Type 0 where
  pub size : ℕ
  pub funder_desc : Str
  pub members : List (ReportMemberRow W)

pub record ReportTokenRow (W : Type 0) : Type 0 where
  pub rank : ℕ
  pub symbol : Str
  pub name : Str
  pub verdict : Str
  pub verdict_class : Str
  pub independence : Str
  pub independence_class : Str
  pub smart_flow : Str
  pub smart_flow_class : Str
  pub exch_flow : Str
  pub exch_flow_class : Str
  pub flow_note : Str
  pub liquidity : Str
  pub move : Str
  pub move_class : Str
  pub clusters : List (ReportClusterRow W)

pub record ReportFunderRow : Type 0 where
  pub label : Str
  pub address : Str
  pub wallet_count : ℕ

pub record ReportData (W : Type 0) : Type 0 where
  pub generated_at : Str
  pub wallet_count : ℕ
  pub token_count : ℕ
  pub failure_count : ℕ
  pub seed_trade_count : ℕ
  pub distinct_funders : ℕ
  pub shared_funders : ℕ
  pub census_headline : Str
  pub weak_token_count : ℕ
  pub min_signal : Str
  pub top_funders : List ReportFunderRow
  pub wallets : List (ReportWalletRow W)
  pub tokens : List (ReportTokenRow W)

-- `i` counts the funders up to the `break`.
unfoldable pub funder_rows : ℕ → List FunderCount → List ReportFunderRow
funder_rows i [] = []
funder_rows i (fc ∷ fcs) =
    let rest = funder_rows (suc i) fcs in
    if leb 5 i || leb fc.wallet_count 1
    then []
    else record { label = fc.label; address = fc.address; wallet_count = fc.wallet_count } ∷ rest

abbrev pub no_flow_data : Str
no_flow_data = str "no flow-intelligence data for this token; the exit signal cannot fire"

abbrev pub no_exchange : Str
no_exchange = str "no exchange address has touched this token; the exit check had nothing to test"

-- The note of a row; where there is none the exchange cell has a figure.
unfoldable pub flow_note_of : {W : Type 0} → TokenReport W → Str
flow_note_of tr =
    if not tr.flow_available
    then no_flow_data
    else if not tr.exchange_observed
    then no_exchange
    else []

abbrev pub checkable : {W : Type 0} → TokenReport W → Bool
checkable tr = if not tr.flow_available then false else tr.exchange_observed

module _ {W : Type 0} ⦃f : Float64 W⦄ ⦃t : FloatText W⦄ where
  unfoldable pub member_row : BuyerInput W → ReportMemberRow W
  member_row b = record {
    address = b.address;
    label = b.label;
    pnl_usd = b.pnl_usd;
    win_rate = f.mul b.win_rate (f.of_nat 100);
  }

  unfoldable pub cluster_row : ClusterGroup W → ReportClusterRow W
  unfolding funder_description member_row
  cluster_row c = record {
    size = length c.members;
    funder_desc = funder_description c;
    members = map member_row c.members;
  }

  unfoldable pub report_row : ℕ → TokenReport W → ReportTokenRow W
  unfolding verdict_label_html verdict_class independence_label_html independence_class
      format_signed_usd smart_flow_class exch_flow_class format_usd move_label move_class
      flow_note_of cluster_row
  report_row rank tr = record {
    rank = rank;
    symbol = tr.symbol;
    name = tr.name;
    verdict = verdict_label_html tr.verdict;
    verdict_class = verdict_class tr.verdict;
    independence = independence_label_html tr;
    independence_class = independence_class tr.verdict;
    smart_flow = format_signed_usd tr.smart_trader_net_flow_usd;
    smart_flow_class = smart_flow_class tr.smart_trader_net_flow_usd;
    exch_flow = if checkable tr then format_signed_usd tr.exchange_net_flow_usd else [];
    exch_flow_class = if checkable tr then exch_flow_class tr.exchange_net_flow_usd else [];
    flow_note = flow_note_of tr;
    liquidity = format_usd tr.liquidity_usd;
    move = move_label tr.move;
    move_class = move_class tr.move;
    clusters = map cluster_row tr.clusters;
  }

  -- The rows of the tokens after `rank` of them: a WEAK token gets none.
  unfoldable pub token_rows : ℕ → List (TokenReport W) → List (ReportTokenRow W)
  unfolding report_row
  token_rows rank [] = []
  token_rows rank (tr ∷ trs) =
      if is_weak tr.verdict
      then token_rows rank trs
      else report_row (suc rank) tr ∷ token_rows (suc rank) trs

  unfoldable pub report_wallet : Dict Str (W × W) → ℕ × WalletScore W → ReportWalletRow W
  report_wallet by_addr (i, w) =
      let (pnl, win_rate) = lookup_or w.address (f.zero, f.zero) by_addr in
      record {
        rank = i + 1;
        address = w.address;
        label = w.label;
        score = w.score;
        score_pct = t.to_int (f.mul w.score (f.of_nat 100));
        pnl_usd = pnl;
        win_rate = f.mul win_rate (f.of_nat 100);
      }

  unfoldable pub report_data : Str → Result W → ReportData W
  unfolding census_headline funder_rows token_rows report_wallet wallet_by_addr weak_count
  report_data now result = record {
    generated_at = now;
    wallet_count = result.wallet_count;
    token_count = result.token_count;
    failure_count = length result.failures;
    seed_trade_count = length result.seed;
    distinct_funders = result.census.distinct_funders;
    shared_funders = result.census.shared_funders;
    census_headline = census_headline result.census result.wallet_count;
    weak_token_count = weak_count result.token_reports;
    min_signal = str "$" ++ t.fixed 0 result.min_signal_usd;
    top_funders = funder_rows 0 result.census.top_funders;
    wallets =
        map (report_wallet (wallet_by_addr result.wallets))
          (enumerate (take 20 result.ranked_wallets));
    tokens = token_rows 0 result.token_reports;
  }
