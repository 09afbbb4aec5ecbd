-- ===== src/Scorecard/Report/Rows.antt =====
-- cmd/scorecard: the rows of the report against those of the terminal's table, and what a row claims.
use smart_money_falsifier.Base.{
  ℕ, suc, ◌+◌, ◌≡◌, ◌≢◌, ◌⊎◌, refl, ap, subst, ◌∙◌, inl, inr, Bool, Bool-cases, true, false, ◌&&◌,
  List, [], ◌∷◌, map, length, enumerate, enumerate_from, arith, Str, str, MapOrder,
}
use smart_money_falsifier.Float.{Float64}
use smart_money_falsifier.Score.Verdict.{
  Verdict, both, thin, concentrated, distributing, confirmed, exit_only, decide_verdict, fires,
}
use smart_money_falsifier.Score.Wallets.{WalletInput, TokenInput}
use smart_money_falsifier.Pipeline.Floor.{decide_with_floor}
use smart_money_falsifier.Pipeline.Universe.{TokenAgg}
use smart_money_falsifier.Pipeline.Assemble.{TokenReport, token_report}
use smart_money_falsifier.Pipeline.Run.{Result, is_weak}
use smart_money_falsifier.Scorecard.Format.{FloatText}
use smart_money_falsifier.Scorecard.Labels.{format_signed_usd}
use smart_money_falsifier.Scorecard.Table.{shown_reports, weak_count}
use smart_money_falsifier.Scorecard.Report.{
  ReportTokenRow, report_row, token_rows, report_data, flow_note_of, checkable,
}

weak_count-split :
    {W : Type 0} (trs : List (TokenReport W))
    → length (shown_reports trs) + weak_count trs ≡ length trs
unfolding shown_reports weak_count
weak_count-split [] = refl
weak_count-split (tr ∷ trs) = ground (arith, weak_count-split trs)

-- The verdicts that rest on the exit check.
abbrev pub rests_on_exit : Verdict → Bool
rests_on_exit both = true
rests_on_exit distributing = true
rests_on_exit exit_only = true
rests_on_exit confirmed = true
rests_on_exit _ = false

keep_rests :
    (v u : Verdict)
    → rests_on_exit v ≡ false
    → rests_on_exit u ≡ false
    → rests_on_exit (elim v [ thin ↦ thin | concentrated ↦ concentrated | both ↦ both | _ ↦ u ])
      ≡ false
keep_rests thin u h k = refl
keep_rests concentrated u h k = refl
keep_rests both u h k = h
keep_rests _ u h k = k

module _ {W : Type 0} ⦃f : Float64 W⦄ ⦃t : FloatText W⦄ where
  -- The row of a token of the table.
  abbrev pub row_of : ℕ × TokenReport W → ReportTokenRow W
  row_of (i, tr) = report_row (suc i) tr

  token_rows-shown :
      (rank : ℕ) (trs : List (TokenReport W))
      → token_rows rank trs ≡ map row_of (enumerate_from rank (shown_reports trs))
  unfolding token_rows shown_reports
  token_rows-shown rank [] = refl
  token_rows-shown rank (tr ∷ trs) = elim (Bool-cases (is_weak tr.verdict)) [
    | inl e ↦ rw e (token_rows-shown rank trs)
    | inr e ↦ rw e (ap (λ l. report_row (suc rank) tr ∷ l) (token_rows-shown (suc rank) trs))
  ]

  -- The report shows the tokens of the terminal's table, in the same order and under the same numbers,
  -- and no token is lost: those that it shows and those that it counts as WEAK are all of them.
  pub report_data-shown :
      (now : Str) (result : Result W)
      → ((report_data now result).tokens
          ≡ map row_of (enumerate (shown_reports result.token_reports)))
        × (length (shown_reports result.token_reports) + (report_data now result).weak_token_count
            ≡ length result.token_reports)
  unfolding report_data
  report_data-shown now result =
      (token_rows-shown 0 result.token_reports, weak_count-split result.token_reports)

  signed-present : (v : W) → format_signed_usd v ≢ []
  unfolding format_signed_usd str
  signed-present v = elim (Bool-cases (f.lt v f.zero)) [
    | inl e ↦ rw e (λ q. ground (arith, q))
    | inr e ↦ rw e (λ q. ground (arith, q))
  ]

  unchecked_decide :
      (n m covered : ℕ) (smart exch : W)
      → rests_on_exit (decide_verdict n m covered smart exch false) ≡ false
  unfolding decide_verdict fires
  unchecked_decide n m covered smart exch = ground arith

  unchecked_floor :
      (n m covered : ℕ) (smart exch bought min_signal : W)
      → rests_on_exit (decide_with_floor n m covered smart exch false bought min_signal) ≡ false
  unfolding decide_with_floor
  unchecked_floor n m covered smart exch bought min_signal =
      elim (Bool-cases (f.le min_signal bought)) [
        | inl e ↦ rw (decide_with_floor, e) (unchecked_decide n m covered smart exch)
        | inr e ↦
            rw (decide_with_floor, e)
              (keep_rests (decide_verdict n m covered smart exch false)
                (decide_verdict 0 m covered smart exch false)
                (unchecked_decide n m covered smart exch) (unchecked_decide 0 m covered smart exch))
      ]

  unchecked :
      (n m covered : ℕ) (smart exch bought min_signal : W) (checked : Bool)
      → checked ≡ false
      → rests_on_exit (decide_with_floor n m covered smart exch checked bought min_signal) ≡ false
  unchecked n m covered smart exch bought min_signal checked e =
      rw e (unchecked_floor n m covered smart exch bought min_signal)

  -- What the two flags of a report come to in its row.
  ShowsFlow : ReportTokenRow W → Bool → Type 0
  ShowsFlow row true = (row.exch_flow ≢ []) × (row.flow_note ≡ [])
  ShowsFlow row false = (row.exch_flow ≡ []) × (row.flow_note ≢ [])

  report_row-ShowsFlow :
      (rank : ℕ) (tr : TokenReport W) → ShowsFlow (report_row rank tr) (checkable tr)
  unfolding report_row flow_note_of ShowsFlow str
  report_row-ShowsFlow rank tr = elim (Bool-cases tr.flow_available) [
    | inr e ↦ rw (report_row, flow_note_of, e) (refl, λ q. ground (arith, q))
    | inl e ↦ elim (Bool-cases tr.exchange_observed) [
      | inl g ↦ rw (report_row, flow_note_of, e, g) (signed-present tr.exchange_net_flow_usd, refl)
      | inr g ↦ rw (report_row, flow_note_of, e, g) (refl, λ q. ground (arith, q))
    ]
  ]

  token_report-rests :
      (order : MapOrder) (min_signal : W) (wallets : List (WalletInput W)) (addrs : List Str)
      (bought : W) (k : Str) (agg : TokenAgg) (ti : TokenInput W)
      → checkable (token_report order min_signal wallets addrs bought k agg ti) ≡ false
      → rests_on_exit (token_report order min_signal wallets addrs bought k agg ti).verdict ≡ false
  unfolding token_report
  token_report-rests order min_signal wallets addrs bought k agg ti h =
      unchecked _ _ _ _ _ bought min_signal (ti.flow_available && ti.exchange_observed)
        (ground (arith, h))

  Shown-cases :
      (row : ReportTokenRow W) (b : Bool) (v : Verdict)
      → ShowsFlow row b
      → (b ≡ false → rests_on_exit v ≡ false)
      → ((b ≡ true) × (row.exch_flow ≢ []) × (row.flow_note ≡ []))
        ⊎ ((b ≡ false) × (row.exch_flow ≡ []) × (row.flow_note ≢ []) × (rests_on_exit v ≡ false))
  unfolding ShowsFlow
  Shown-cases row true v h k = inl (refl, h.0, h.1)
  Shown-cases row false v h k = inr (refl, h.0, h.1, k refl)

  token_report-checked :
      (order : MapOrder) (min_signal : W) (wallets : List (WalletInput W)) (addrs : List Str)
      (bought : W) (k : Str) (agg : TokenAgg) (ti : TokenInput W)
      → checkable (token_report order min_signal wallets addrs bought k agg ti)
        ≡ (ti.flow_available && ti.exchange_observed)
  unfolding token_report
  token_report-checked order min_signal wallets addrs bought k agg ti = ground arith

  -- The report never claims an exit check that was not made. Where the API gave the token's flows and saw an
  -- exchange side, the row of the token that Run judged has an exchange figure and no note. Otherwise it
  -- has no figure, a note that says why, and a verdict other than BOTH, DISTRIBUTING, EXIT_ONLY and
  -- CONFIRMED, which rest on that check.
  pub report_row-honest :
      (rank : ℕ) (order : MapOrder) (min_signal : W) (wallets : List (WalletInput W))
      (addrs : List Str) (bought : W) (k : Str) (agg : TokenAgg) (ti : TokenInput W)
      → let tr = token_report order min_signal wallets addrs bought k agg ti in
        (((ti.flow_available && ti.exchange_observed) ≡ true)
          × ((report_row rank tr).exch_flow ≢ [])
          × ((report_row rank tr).flow_note ≡ []))
        ⊎ (((ti.flow_available && ti.exchange_observed) ≡ false)
            × ((report_row rank tr).exch_flow ≡ [])
            × ((report_row rank tr).flow_note ≢ [])
            × (rests_on_exit tr.verdict ≡ false))
  report_row-honest rank order min_signal wallets addrs bought k agg ti =
      let tr = token_report order min_signal wallets addrs bought k agg ti in
      let same = token_report-checked order min_signal wallets addrs bought k agg ti in
      Shown-cases (report_row rank tr) (ti.flow_available && ti.exchange_observed) tr.verdict
        (subst (ShowsFlow (report_row rank tr)) same (report_row-ShowsFlow rank tr))
        (λ e. token_report-rests order min_signal wallets addrs bought k agg ti (same ∙ e))
