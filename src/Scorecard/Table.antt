-- ===== src/Scorecard/Table.antt =====
-- cmd/scorecard/table.go: printPlan and printTable, as the bytes that they write to stdout. `enabled` is
-- what colorEnabled answers.
use smart_money_falsifier.Base.{
  ℕ, ◌+◌, Bool, true, false, not, ◌&&◌, Option, none, some, List, [], ◌∷◌, ◌++◌, map, if◌then◌else◌,
  ltb, length, select, fold, take, enumerate, Str, str, str_key, Dict, lookup_or, insert,
}
use smart_money_falsifier.Float.{Float64}
use smart_money_falsifier.Score.Move.{Move}
use smart_money_falsifier.Score.Wallets.{WalletInput, WalletScore}
use smart_money_falsifier.Pipeline.Assemble.{TokenReport}
use smart_money_falsifier.Pipeline.Run.{Result, is_weak}
use smart_money_falsifier.Pipeline.Plan.{PlanItem, new_credits_estimate}
use smart_money_falsifier.Scorecard.Format.{FloatText, decimal, pad_left, pad_right, repeat}
use smart_money_falsifier.Scorecard.Headline.{census_headline}
use smart_money_falsifier.Scorecard.Labels.{
  ansi_bold, ansi_cyan, ansi_yellow, ansi_gray, colorize, score_color, verdict_color, verdict_label,
  independence_label, signed_usd, exch_flow_color, smart_flow_color, dash, multiple, move_late,
  truncate_str,
}

abbrev pub line : Str → Str
line s = s ++ b'\n' ∷ []

abbrev concat : List Str → Str
concat parts = fold ◌++◌ [] parts

-- One line of the plan's table, from its cells.
abbrev plan_line : Str → Str → Str → Str → Str → Str → Str
plan_line name total cached fresh cost credits = line (
    pad_right 32 name
    ++ (b' ' ∷ pad_left 8 total
        ++ (b' ' ∷ pad_left 8 cached
            ++ (b' ' ∷ pad_left 8 fresh
                ++ (b' ' ∷ pad_left 8 cost ++ b' ' ∷ pad_left 10 credits)))))

unfoldable pub plan_row : PlanItem → Str
unfolding pad_left pad_right decimal new_credits_estimate
plan_row it =
    plan_line (if it.upper_bound then it.endpoint ++ str " (at most)" else it.endpoint)
      (decimal it.total) (decimal it.cached) (decimal it.fresh) (decimal it.cost_per_call)
      (decimal (new_credits_estimate it))

-- `totalNew`, `totalCredits` and `upper` after the loop.
pub record PlanTotals : Type 0 where
  pub fresh : ℕ
  pub credits : ℕ
  pub upper : Bool

unfoldable pub add_item : PlanTotals → PlanItem → PlanTotals
unfolding new_credits_estimate
add_item t it = record {
  fresh = t.fresh + it.fresh;
  credits = t.credits + new_credits_estimate it;
  upper = if it.upper_bound then true else t.upper;
}

unfoldable pub plan_totals : List PlanItem → PlanTotals
unfolding add_item
plan_totals items = fold add_item (record { fresh = 0; credits = 0; upper = false }) items

unfoldable pub print_plan : Bool → List PlanItem → Str
unfolding colorize plan_row plan_totals pad_left pad_right decimal repeat
print_plan enabled items =
    let t = plan_totals items in
    concat (
      line (colorize enabled (str "Call plan (no HTTP made yet):") ansi_bold)
      ∷ plan_line (str "endpoint") (str "total") (str "cached") (str "new") (str "cost/ea")
          (str "new credits")
      ∷ (map plan_row items
          ++ (line (repeat 78 b'-')
              ∷ plan_line (str "TOTAL") [] [] (decimal t.fresh) [] (decimal t.credits)
              ∷ (if t.upper
                  then line (
                      str
                        "(at most): only tokens that end up with a verdict are priced; the real count is lower.")
                    ∷ []
                  else []))))

-- The rows of the table, and how many were left out as WEAK.
unfoldable pub shown_reports : {W : Type 0} → List (TokenReport W) → List (TokenReport W)
shown_reports reports = select (λ tr. not (is_weak tr.verdict)) reports

unfoldable pub weak_count : {W : Type 0} → List (TokenReport W) → ℕ
weak_count [] = 0
weak_count (tr ∷ trs) = if is_weak tr.verdict then weak_count trs + 1 else weak_count trs

module _ {W : Type 0} ⦃f : Float64 W⦄ ⦃t : FloatText W⦄ where
  unfoldable pub exch_flow_cell : Bool → TokenReport W → Str
  unfolding colorize pad_left signed_usd exch_flow_color
  exch_flow_cell enabled tr =
      if tr.flow_available && tr.exchange_observed
      then colorize enabled (pad_left 14 (signed_usd tr.exchange_net_flow_usd))
          (exch_flow_color tr.exchange_net_flow_usd)
      else colorize enabled (pad_left 14 dash) ansi_gray

  unfoldable pub move_cell : Bool → Option (Move W) → Str
  unfolding colorize multiple move_late
  move_cell enabled none = colorize enabled dash ansi_gray
  move_cell enabled (some m) =
      let s =
        str "peak " ++ (multiple m.peak_multiple ++ (str ", now " ++ multiple m.now_multiple)) in
      if move_late (some m) then colorize enabled s ansi_yellow else s

  -- `walletByAddr`: the PnL and the win rate of the last wallet with an address.
  unfoldable pub wallet_by_addr : List (WalletInput W) → Dict Str (W × W)
  wallet_by_addr wallets =
      fold (λ d w. insert w.address (w.realized_pnl_usd, w.win_rate) d) [] wallets

  unfoldable pub token_row : Bool → ℕ × TokenReport W → Str
  unfolding decimal pad_left pad_right truncate_str verdict_label verdict_color independence_label
      signed_usd smart_flow_color exch_flow_cell move_cell colorize
  token_row enabled (i, tr) = line (
      pad_right 4 (decimal (i + 1))
      ++ (b' ' ∷ pad_right 24 (truncate_str tr.symbol 24)
          ++ (b' '
                ∷ colorize enabled (pad_right 12 (verdict_label tr.verdict))
                    (verdict_color tr.verdict)
              ++ (b' ' ∷ pad_left 8 (independence_label tr)
                  ++ (b' '
                        ∷ colorize enabled (pad_left 14 (signed_usd tr.smart_trader_net_flow_usd))
                            (smart_flow_color tr.smart_trader_net_flow_usd)
                      ++ (b' ' ∷ exch_flow_cell enabled tr
                          ++ (str "  " ++ move_cell enabled tr.move)))))))

  unfoldable pub wallet_row : Bool → Dict Str (W × W) → ℕ × WalletScore W → Str
  unfolding decimal pad_left pad_right truncate_str score_color colorize
  wallet_row enabled by_addr (i, w) =
      let (pnl, win_rate) = lookup_or w.address (f.zero, f.zero) by_addr in
      line (
        pad_right 4 (decimal (i + 1))
        ++ (b' ' ∷ pad_right 44 w.address
            ++ (b' ' ∷ pad_right 24 (truncate_str w.label 24)
                ++ (b' ' ∷ colorize enabled (pad_left 8 (t.fixed 3 w.score)) (score_color w.score)
                    ++ (b' ' ∷ pad_left 10 (t.fixed 0 pnl)
                        ++ b' ' ∷ pad_left 8 (t.fixed 2 win_rate))))))

  unfoldable pub print_table : Bool → Result W → Str
  unfolding colorize census_headline shown_reports weak_count token_row wallet_by_addr wallet_row
      decimal pad_left pad_right
  print_table enabled result =
      let shown = shown_reports result.token_reports in
      let weak = weak_count result.token_reports in
      let heading : Str = ansi_bold ++ ansi_cyan in
      concat (
        line (colorize enabled (census_headline result.census result.wallet_count) ansi_bold)
        ∷ line []
        ∷ line (
            colorize enabled
              (str "Tokens ("
                ++ (decimal (length shown)
                    ++ str " scored) — the product: is the smart-money signal real?"))
              heading)
        ∷ line (
            pad_right 4 (str "#")
            ++ (b' ' ∷ pad_right 24 (str "symbol")
                ++ (b' ' ∷ pad_right 12 (str "verdict")
                    ++ (b' ' ∷ pad_left 8 (str "N -> M")
                        ++ (b' ' ∷ pad_left 14 (str "smart_flow")
                            ++ (b' ' ∷ pad_left 14 (str "exch_flow")
                                ++ (str "  " ++ str "since smart money")))))))
        ∷ (map (token_row enabled) (enumerate shown)
            ++ ((if ltb 0 weak
                  then line (
                      colorize enabled
                        (decimal weak
                          ++ (str
                                " tokens had too little smart-money buying to judge — fewer than 3 buyers or under $"
                              ++ (t.fixed 0 result.min_signal_usd
                                  ++ str " bought — and no exit signal")))
                        ansi_gray)
                    ∷ []
                  else [])
                ++ (line []
                    ∷ line (
                        colorize enabled
                          (str "Wallets ("
                            ++ (decimal (length result.ranked_wallets)
                                ++ str " scored) — supporting evidence"))
                          heading)
                    ∷ line (
                        pad_right 4 (str "#")
                        ++ (b' ' ∷ pad_right 44 (str "address")
                            ++ (b' ' ∷ pad_right 24 (str "label")
                                ++ (b' ' ∷ pad_left 8 (str "score")
                                    ++ (b' ' ∷ pad_left 10 (str "pnl_usd")
                                        ++ b' ' ∷ pad_left 8 (str "win_rate"))))))
                    ∷ (map (wallet_row enabled (wallet_by_addr result.wallets))
                          (enumerate (take 20 result.ranked_wallets))
                        ++ (if ltb 0 (length result.failures)
                            then line []
                              ∷ line (
                                  colorize enabled
                                    (decimal (length result.failures)
                                      ++ str " partial failures (see stderr)")
                                    ansi_gray)
                              ∷ []
                            else []))))))
