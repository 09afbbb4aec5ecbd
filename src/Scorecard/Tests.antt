-- ===== src/Scorecard/Tests.antt =====
-- Runs of the scorecard on small inputs, and the theorems at such inputs.
use smart_money_falsifier.Base.{
  ◌&&◌, ℕ, suc, ◌+◌, ◌≡◌, ◌≢◌, ◌⊎◌, inr, refl, true, false, none, some, List, [], ◌∷◌, ◌++◌, map,
  length, select, take, enumerate, Str, str, str_key, Dict, lookup, in_order, pos, negsuc, sort_by,
  str_eq, str_lt, insert,
}
use smart_money_falsifier.Float.Whole.{Whole, nan, bottom, whole, whole_float}
use smart_money_falsifier.Score.Verdict.{Verdict, weak, exit_only, independent}
use smart_money_falsifier.Score.Cluster.{BuyerInput}
use smart_money_falsifier.Score.Census.{compute_funder_census}
use smart_money_falsifier.Score.Wallets.{TokenInput}
use smart_money_falsifier.Nansen.Client.{World, network_error}
use smart_money_falsifier.Pipeline.Universe.{TokenAgg}
use smart_money_falsifier.Pipeline.Assemble.{TokenReport, token_report}
use smart_money_falsifier.Pipeline.Run.{Result}
use smart_money_falsifier.Pipeline.Api.{Decoders, holds}
use smart_money_falsifier.Scorecard.Format.{FloatText, decimal, pad_left, rune_count}
use smart_money_falsifier.Scorecard.Labels.{independence_label, signed_usd, truncate_str, multiple}
use smart_money_falsifier.Scorecard.Headline.{leading, census_headline}
use smart_money_falsifier.Scorecard.Headline.Shared.{
  AreMostFirst, is_shared, funder_row, leading-shared,
}
use smart_money_falsifier.Scorecard.Table.{shown_reports, exch_flow_cell}
use smart_money_falsifier.Scorecard.Report.{report_data, report_row, funder_rows}
use smart_money_falsifier.Scorecard.Report.Rows.{
  row_of, rests_on_exit, report_data-shown, report_row-honest,
}
use smart_money_falsifier.Scorecard.Html.{escape}
use smart_money_falsifier.Scorecard.Html.Safe.{delimiters}
use smart_money_falsifier.Scorecard.Page.{report_html}
use smart_money_falsifier.Scorecard.Page.Masked.{masked, report_html-masked}
use smart_money_falsifier.Scorecard.Command.{Flags, Machine, confirm, run_command}
use smart_money_falsifier.Scorecard.Command.Unasked.{run_command-unasked}
use smart_money_falsifier.Scorecard.Command.Reports.{seed_key, offline_run-reports}

instance abbrev whole_text : FloatText Whole
whole_text = record {
  fixed = λ places x. elim x [
    | nan ↦ str "NaN"
    | bottom ↦ str "-Inf"
    | whole n ↦ elim n [ pos k ↦ decimal k | negsuc k ↦ b'-' ∷ decimal (suc k) ]
  ];
  to_int = λ x. elim x [ whole n ↦ n | _ ↦ pos 0 ];
}

abbrev usd : ℕ → Whole
usd n = whole (pos n)

decimal_runs : decimal 1305 ≡ str "1305"
unfolding decimal str
decimal_runs = refl

-- A width counts runes and not bytes.
pad_runs : pad_left 3 (str "—") ≡ str "  —"
unfolding pad_left rune_count str
pad_runs = refl

signed_runs : signed_usd (whole (negsuc 4)) ≡ str "-$5"
unfolding signed_usd decimal str
signed_runs = refl

-- Cut in the middle of a rune: the first byte of `é` is left.
truncate_runs : truncate_str (str "aé…") 3 ≡ b'a' ∷ 0xc3 ∷ str "…"
unfolding truncate_str str
truncate_runs = refl

multiple_runs : multiple (usd 12) ≡ str "12x"
unfolding multiple decimal str
multiple_runs = refl

abbrev report_of : Verdict → TokenReport Whole
report_of v = record {
  key = str "eth:0x1";
  chain = str "eth";
  address = str "0x1";
  symbol = str "A<B";
  name = [];
  verdict = v;
  n = 4;
  m = 2;
  covered = 3;
  smart_trader_net_flow_usd = usd 7;
  exchange_net_flow_usd = usd 0;
  flow_available = true;
  exchange_observed = false;
  smart_bought_usd = usd 9;
  move = none;
  liquidity_usd = none;
  clusters = [];
}

label_runs : independence_label (report_of independent) ≡ str "4->2 (3/4 checked)"
unfolding independence_label decimal str
label_runs = refl

dash_runs : independence_label (report_of exit_only) ≡ str "—"
unfolding independence_label
dash_runs = refl

cell_runs : exch_flow_cell false (report_of independent) ≡ str "             —"
unfolding exch_flow_cell str
cell_runs = refl

abbrev wallet_of : Str → BuyerInput Whole
wallet_of a = record {
  address = a;
  label = [];
  pnl_usd = usd 0;
  win_rate = usd 0;
  funders =
      record { address = str "x"; label = str "X" } ∷ record { address = str "y"; label = [] } ∷ [];
  funder_checked = true;
}

abbrev two_wallets : List (BuyerInput Whole)
two_wallets = wallet_of (str "a") ∷ wallet_of (str "b") ∷ []

-- Two wallets that share two funders are counted twice.
headline_runs :
    census_headline (compute_funder_census in_order two_wallets) 2
    ≡ str "4 of 2 top smart-money wallets were funded by just 2 addresses: X funded 2, y funded 2."
unfolding census_headline compute_funder_census decimal str sort_by str_eq str_lt insert lookup
headline_runs = refl

leading-shared_example :
    let census = compute_funder_census in_order two_wallets in
    let shared = select is_shared census.top_funders in
    (leading census.top_funders ≡ shared)
    × (length (leading census.top_funders) ≡ census.shared_funders)
    × (census_headline census 2 ≡ census_headline (record census { top_funders = shared }) 2)
    × (funder_rows 0 census.top_funders ≡ map funder_row (take 5 shared))
    × AreMostFirst shared
leading-shared_example = leading-shared in_order two_wallets 2

abbrev result : Result Whole
result = record {
  seed = [];
  wallets = [];
  tokens = [];
  failures = [];
  wallet_count = 2;
  token_count = 2;
  ranked_wallets = [];
  min_signal_usd = usd 1000;
  token_reports = report_of weak ∷ report_of independent ∷ [];
  census = compute_funder_census in_order two_wallets;
}

report_data-shown_example :
    ((report_data (str "now") result).tokens
      ≡ map row_of (enumerate (shown_reports result.token_reports)))
    × (length (shown_reports result.token_reports)
          + (report_data (str "now") result).weak_token_count
        ≡ length result.token_reports)
report_data-shown_example = report_data-shown (str "now") result

report_html-masked_example :
    delimiters (report_html (str "<html>") (report_data (str "now") result))
    ≡ delimiters (report_html (str "<html>") (masked (report_data (str "now") result)))
report_html-masked_example = report_html-masked (str "<html>") (report_data (str "now") result)

escape_runs : escape (str "A<B") ≡ str "A&lt;B"
unfolding escape str
escape_runs = refl

abbrev asked_about : TokenAgg
asked_about = record { chain = str "eth"; address = str "0x1"; seed_symbol = [] }

abbrev unobserved : TokenInput Whole
unobserved = record {
  key = str "eth:0x1";
  symbol = [];
  name = [];
  smart_trader_net_flow_usd = usd 5;
  exchange_net_flow_usd = usd 0;
  flow_available = true;
  exchange_observed = false;
  liquidity_usd = none;
}

report_row-honest_example :
    let tr = token_report in_order (usd 1000) [] [] (usd 2000) (str "k") asked_about unobserved in
    (((unobserved.flow_available && unobserved.exchange_observed) ≡ true)
      × ((report_row 1 tr).exch_flow ≢ [])
      × ((report_row 1 tr).flow_note ≡ []))
    ⊎ (((unobserved.flow_available && unobserved.exchange_observed) ≡ false)
        × ((report_row 1 tr).exch_flow ≡ [])
        × ((report_row 1 tr).flow_note ≢ [])
        × (rests_on_exit tr.verdict ≡ false))
report_row-honest_example =
    report_row-honest 1 in_order (usd 1000) [] [] (usd 2000) (str "k") asked_about unobserved

abbrev silent : World
silent = record {
  reply = λ k. network_error;
  backoff_cancelled = λ k. false;
  limiter_cancelled = λ k. false;
  put_fails = λ key. false;
  until = λ v. none;
}

abbrev no_trades : Decoders Whole
no_trades = record {
  trades = λ s. some [];
  pnl_summary = λ s. none;
  related_wallets = λ s. none;
  flow_intelligence = λ s. none;
  token_information = λ s. none;
  token_ohlcv = λ s. none;
}

abbrev machine : Machine Whole
machine = record {
  root = some (str "/repo");
  fixture = holds (str "{}");
  unreadable = [];
  log_opens = true;
  no_color = [];
  stdout_device = none;
  answer = str "n";
  out_dir_fails = false;
  report_fails = false;
  now = str "now";
  head = str "<html>";
  error_text = λ e. str "error";
  json = record { of_number = decimal; quote = λ s. b'"' ∷ s ++ b'"' ∷ [] };
  sha = λ s. s;
  decoders = no_trades;
  parse_time = λ s. none;
  world = silent;
  order = in_order;
  cancelled = λ pool k. false;
}

abbrev flags : Flags Whole
flags = record {
  dry_run = false;
  offline = true;
  yes = false;
  concurrency = 8;
  max_wallets = 0;
  min_signal_usd = usd 1000;
  credit_floor = pos 100;
  allow_expensive = false;
  credits_remaining = negsuc 0;
}

n_refuses : confirm (str "n") ≡ false
unfolding confirm str_eq str
n_refuses = refl

run_command-unasked_example :
    (run_command machine (some (record flags { offline = false })) []).client.sent ≡ 0
run_command-unasked_example =
    run_command-unasked machine (record flags { offline = false }) []
      (inr (refl, inr (refl, n_refuses)))

abbrev no_cache : Dict Str Str
no_cache = []

nothing_cached : lookup (seed_key machine) no_cache ≡ none
unfolding lookup
nothing_cached = refl

offline_run-reports_example :
    ((run_command machine (some flags) []).error ≡ none)
    × ((html : Str) × ((run_command machine (some flags) []).report ≡ some html))
offline_run-reports_example =
    offline_run-reports machine flags [] (str "/repo") (str "{}") [] refl refl refl refl refl refl
      (inr (nothing_cached, refl, refl, refl)) refl
