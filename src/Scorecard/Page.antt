-- ===== src/Scorecard/Page.antt =====
-- cmd/scorecard/report.go, reportTemplate from `<body>` on, as html/template executes it. The template's
-- text goes out as it is; what an action prints is escaped.
pub mod Masked
use smart_money_falsifier.Base.{
  ℕ, suc, List, [], ◌∷◌, ◌++◌, map, if◌then◌else◌, ◌==◌, Str, str, str_eq, ℤ, pos, negsuc, flat_map,
}
use smart_money_falsifier.Float.{Float64}
use smart_money_falsifier.Scorecard.Format.{FloatText, decimal}
use smart_money_falsifier.Scorecard.Html.{Piece, markup, text, render}
use smart_money_falsifier.Scorecard.Labels.{score_class}
use smart_money_falsifier.Scorecard.Report.{
  ReportData, ReportFunderRow, ReportTokenRow, ReportClusterRow, ReportMemberRow, ReportWalletRow,
}

-- `{{.ScorePct}}`, an int.
abbrev signed_decimal : ℤ → Str
signed_decimal (pos n) = decimal n
signed_decimal (negsuc n) = b'-' ∷ decimal (suc n)

unfoldable pub funder_html : ReportFunderRow → List Piece
unfolding decimal
funder_html r =
    (markup (str "\n  <div class=\"funder-row\"><span class=\"label\">") ∷ [])
    ++ (((if str_eq r.label [] then markup (str "(no label)") ∷ [] else (text (r.label) ∷ [])))
        ++ (markup (str "</span><span class=\"addr\">")
            ∷ text (r.address)
            ∷ markup (str "</span><span>funds ")
            ∷ text (decimal r.wallet_count)
            ∷ markup (str " wallets</span></div>\n  ")
            ∷ []))

module _ {W : Type 0} ⦃f : Float64 W⦄ ⦃t : FloatText W⦄ where
  unfoldable pub member_html : ReportMemberRow W → List Piece
  member_html r =
      (markup (str "\n              <tr>\n                <td class=\"addr\">")
        ∷ text (r.address)
        ∷ markup (str "</td>\n                <td class=\"label\">")
        ∷ [])
      ++ (((if str_eq r.label [] then markup (str "&mdash;") ∷ [] else (text (r.label) ∷ [])))
          ++ (markup (str "</td>\n                <td class=\"num\">")
              ∷ text (t.fixed 0 r.pnl_usd)
              ∷ markup (str "</td>\n                <td class=\"num\">")
              ∷ text (t.fixed 1 r.win_rate)
              ∷ markup (str "%</td>\n              </tr>\n              ")
              ∷ []))

  unfoldable pub cluster_html : ReportClusterRow W → List Piece
  unfolding decimal member_html
  cluster_html r =
      (markup
          (str "\n        <div class=\"cluster-group\">\n          <div class=\"cluster-head\"><b>")
        ∷ text (decimal r.size)
        ∷ markup (str "</b> wallet")
        ∷ [])
      ++ (((if r.size == 1 then [] else (markup (str "s") ∷ [])))
          ++ ((markup (str " &mdash; ")
                ∷ text (r.funder_desc)
                ∷ markup (
                    str
                      "</div>\n          <table>\n            <thead><tr><th>Address</th><th>Label</th><th class=\"num\">Realized PnL</th><th class=\"num\">Win Rate</th></tr></thead>\n            <tbody>\n              ")
                ∷ [])
              ++ ((flat_map member_html r.members)
                  ++ (markup
                        (str "\n            </tbody>\n          </table>\n        </div>\n        ")
                      ∷ []))))

  unfoldable pub token_html : ReportTokenRow W → List Piece
  unfolding decimal cluster_html
  token_html r =
      (markup (
          str
            "\n    <details class=\"token-row\">\n      <summary>\n        <div class=\"token-summary-grid\">\n          <div>")
        ∷ text (decimal r.rank)
        ∷ markup (str "</div>\n          <div><div class=\"symbol\">")
        ∷ text (r.symbol)
        ∷ markup (str "</div>")
        ∷ [])
      ++ (((if str_eq r.name []
            then []
            else (markup (str "<div class=\"name\">")
                ∷ text (r.name)
                ∷ markup (str "</div>")
                ∷ [])))
          ++ ((markup (str "</div>\n          <div><span class=\"verdict ")
                ∷ text (r.verdict_class)
                ∷ markup (str "\">")
                ∷ text (r.verdict)
                ∷ markup (str "</span>")
                ∷ [])
              ++ (((if str_eq r.move []
                    then []
                    else (markup (str "<div class=\"move ")
                        ∷ text (r.move_class)
                        ∷ markup (str "\">")
                        ∷ text (r.move)
                        ∷ markup (str "</div>")
                        ∷ [])))
                  ++ ((markup (str "</div>\n          <div><span class=\"verdict ")
                        ∷ text (r.independence_class)
                        ∷ markup (str "\">")
                        ∷ text (r.independence)
                        ∷ markup (str "</span></div>\n          <div class=\"")
                        ∷ text (r.smart_flow_class)
                        ∷ markup (str "\">")
                        ∷ text (r.smart_flow)
                        ∷ markup (str "</div>\n          <div class=\"")
                        ∷ text (r.exch_flow_class)
                        ∷ markup (str "\">")
                        ∷ [])
                      ++ (((if str_eq r.exch_flow []
                            then markup (str "&mdash;") ∷ []
                            else (text (r.exch_flow) ∷ [])))
                          ++ ((markup (str "</div>\n          <div>") ∷ [])
                              ++ (((if str_eq r.liquidity []
                                    then markup (str "&mdash;") ∷ []
                                    else (text (r.liquidity) ∷ [])))
                                  ++ ((markup (
                                          str
                                            "</div>\n        </div>\n      </summary>\n      <div class=\"cluster-detail\">\n        ")
                                        ∷ [])
                                      ++ (((if str_eq r.flow_note []
                                            then []
                                            else (markup (str "<div class=\"no-flow\">")
                                                ∷ text (r.flow_note)
                                                ∷ markup (str "</div>")
                                                ∷ [])))
                                          ++ ((markup (str "\n        ") ∷ [])
                                              ++ ((flat_map cluster_html r.clusters)
                                                  ++ (markup
                                                        (str "\n      </div>\n    </details>\n    ")
                                                      ∷ []))))))))))))

  unfoldable pub wallet_html : ReportWalletRow W → List Piece
  unfolding decimal score_class
  wallet_html r =
      (markup (str "\n      <tr>\n        <td>")
        ∷ text (decimal r.rank)
        ∷ markup (str "</td>\n        <td class=\"addr\">")
        ∷ text (r.address)
        ∷ markup (str "</td>\n        <td class=\"label\">")
        ∷ [])
      ++ (((if str_eq r.label [] then markup (str "&mdash;") ∷ [] else (text (r.label) ∷ [])))
          ++ (markup (str "</td>\n        <td class=\"num\">")
              ∷ text (t.fixed 0 r.pnl_usd)
              ∷ markup (str "</td>\n        <td class=\"num\">")
              ∷ text (t.fixed 1 r.win_rate)
              ∷ markup (
                  str
                    "%</td>\n        <td class=\"num\">\n          <div class=\"bar-cell\">\n            <div class=\"bar-track\"><div class=\"bar-fill ")
              ∷ text (score_class r.score)
              ∷ markup (str "\" style=\"width:")
              ∷ text (signed_decimal r.score_pct)
              ∷ markup (str "%\"></div></div>\n            <div class=\"score-num\">")
              ∷ text (t.fixed 3 r.score)
              ∷ markup (str "</div>\n          </div>\n        </td>\n      </tr>\n      ")
              ∷ []))

  unfoldable pub page_html : ReportData W → List Piece
  unfolding decimal funder_html token_html wallet_html
  page_html d =
      (markup (
          str
            "<body>\n<header>\n  <div>\n    <h1>Is That Smart-Money Signal Real?</h1>\n    <div class=\"subtitle\">generated ")
        ∷ text (d.generated_at)
        ∷ markup (
            str
              " &middot; docs/DESIGN.md verdicts, not a copy-trade ranking</div>\n  </div>\n  <div class=\"stats\">\n    <div class=\"stat\"><div class=\"n\">")
        ∷ text (decimal d.seed_trade_count)
        ∷ markup (
            str
              "</div><div class=\"l\">seed trades</div></div>\n    <div class=\"stat\"><div class=\"n\">")
        ∷ text (decimal d.wallet_count)
        ∷ markup (
            str
              "</div><div class=\"l\">wallets</div></div>\n    <div class=\"stat\"><div class=\"n\">")
        ∷ text (decimal d.token_count)
        ∷ markup (
            str
              "</div><div class=\"l\">tokens</div></div>\n    <div class=\"stat\"><div class=\"n\">")
        ∷ text (decimal d.failure_count)
        ∷ markup (
            str
              "</div><div class=\"l\">partial failures</div></div>\n  </div>\n</header>\n\n<div class=\"census\">\n  <div class=\"headline\">")
        ∷ text (d.census_headline)
        ∷ markup (str "</div>\n  ")
        ∷ [])
      ++ ((flat_map funder_html d.top_funders)
          ++ ((markup (
                  str
                    "\n</div>\n\n<section>\n  <h2>Tokens &mdash; the product: is the signal real?</h2>\n  <div style=\"background:var(--panel); border:1px solid var(--panel-border); border-radius:10px; overflow:hidden;\">\n    ")
                ∷ [])
              ++ ((flat_map token_html d.tokens)
                  ++ ((markup (str "\n  </div>\n  ") ∷ [])
                      ++ (((if d.weak_token_count == 0
                            then []
                            else (markup (
                                  str
                                    "\n  <div style=\"color:var(--muted); font-size:12px; margin-top:10px;\">")
                                ∷ text (decimal d.weak_token_count)
                                ∷ markup (
                                    str
                                      " tokens had too little smart-money buying to judge &mdash; fewer than 3 buyers or under ")
                                ∷ text (d.min_signal)
                                ∷ markup (str " bought &mdash; and no exit signal.</div>\n  ")
                                ∷ [])))
                          ++ ((markup (
                                  str
                                    "\n</section>\n\n<section>\n  <h2>Wallets &mdash; supporting evidence, not the headline</h2>\n  <table>\n    <thead>\n      <tr>\n        <th>#</th><th>Address</th><th>Label</th>\n        <th class=\"num\">Realized PnL (USD)</th><th class=\"num\">Win Rate</th><th class=\"num\">Score</th>\n      </tr>\n    </thead>\n    <tbody>\n      ")
                                ∷ [])
                              ++ ((flat_map wallet_html d.wallets)
                                  ++ (markup (
                                        str
                                          "\n    </tbody>\n  </table>\n</section>\n\n<footer>Falsifier scorecard &middot; verdicts per docs/DESIGN.md &middot; call evidence in out/calls.jsonl</footer>\n</body>\n</html>\n")
                                      ∷ []))))))))

  -- The file that writeReport writes, where nothing fails. `head` is the template before `<body>`, which
  -- has no action.
  unfoldable pub report_html : Str → ReportData W → Str
  unfolding render page_html
  report_html head d = head ++ render (page_html d)
