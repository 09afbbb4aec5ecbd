-- ===== src/Scorecard/Labels.antt =====
-- cmd/scorecard/table.go and report.go: the words, colours and classes of one token's row. The terminal
-- and the report each have their own functions.
use smart_money_falsifier.Base.{
  ℕ, ◌-◌, Bool, true, false, Option, none, some, [], ◌∷◌, ◌++◌, if◌then◌else◌, ltb, leb, length,
  take, Str, str, str_eq,
}
use smart_money_falsifier.Float.{Float64}
use smart_money_falsifier.Score.Verdict.{
  Verdict, both, thin, concentrated, distributing, confirmed, weak, unverified, exit_only,
  independent,
}
use smart_money_falsifier.Score.Move.{Move}
use smart_money_falsifier.Score.Cluster.{ClusterGroup}
use smart_money_falsifier.Pipeline.Assemble.{TokenReport}
use smart_money_falsifier.Scorecard.Format.{FloatText, decimal}

abbrev pub ansi_reset : Str
ansi_reset = 0x1b ∷ str "[0m"

abbrev pub ansi_bold : Str
ansi_bold = 0x1b ∷ str "[1m"

abbrev pub ansi_green : Str
ansi_green = 0x1b ∷ str "[32m"

abbrev pub ansi_yellow : Str
ansi_yellow = 0x1b ∷ str "[33m"

abbrev pub ansi_red : Str
ansi_red = 0x1b ∷ str "[31m"

abbrev pub ansi_cyan : Str
ansi_cyan = 0x1b ∷ str "[36m"

abbrev pub ansi_gray : Str
ansi_gray = 0x1b ∷ str "[90m"

-- From the value of NO_COLOR and from the stat of stdout: nothing, or whether it is a character device.
unfoldable pub color_enabled : Str → Option Bool → Bool
color_enabled no_color stat =
    if str_eq no_color [] then elim stat [ none ↦ false | some device ↦ device ] else false

unfoldable pub colorize : Bool → Str → Str → Str
colorize enabled s code = if enabled then code ++ (s ++ ansi_reset) else s

-- The constants' values.
abbrev pub verdict_text : Verdict → Str
verdict_text both = str "BOTH"
verdict_text thin = str "THIN"
verdict_text concentrated = str "CONCENTRATED"
verdict_text distributing = str "DISTRIBUTING"
verdict_text confirmed = str "CONFIRMED"
verdict_text weak = str "WEAK"
verdict_text unverified = str "UNVERIFIED"
verdict_text exit_only = str "EXIT_ONLY"
verdict_text independent = str "INDEPENDENT"

unfoldable pub verdict_color : Verdict → Str
verdict_color both = ansi_red
verdict_color distributing = ansi_red
verdict_color exit_only = ansi_red
verdict_color thin = ansi_yellow
verdict_color confirmed = ansi_green
verdict_color _ = ansi_gray

unfoldable pub verdict_class : Verdict → Str
verdict_class both = str "v-bad"
verdict_class distributing = str "v-bad"
verdict_class exit_only = str "v-bad"
verdict_class thin = str "v-warn"
verdict_class confirmed = str "v-good"
verdict_class _ = str "v-flat"

unfoldable pub verdict_label : Verdict → Str
verdict_label exit_only = verdict_text distributing
verdict_label v = verdict_text v

unfoldable pub verdict_label_html : Verdict → Str
verdict_label_html exit_only = verdict_text distributing
verdict_label_html v = verdict_text v

unfoldable pub independence_class : Verdict → Str
independence_class exit_only = str "v-bad"
independence_class _ = str "v-flat"

abbrev pub is_exit_only : Verdict → Bool
is_exit_only exit_only = true
is_exit_only _ = false

abbrev pub dash : Str
dash = str "—"

-- `N` and `M` around an arrow, and how many buyers were checked where that is not all of them.
abbrev pub counts_label : Str → ℕ → ℕ → ℕ → Str
counts_label arrow n m covered =
    let pair = decimal n ++ (arrow ++ decimal m) in
    if ltb covered n
    then pair ++ (str " (" ++ (decimal covered ++ (str "/" ++ (decimal n ++ str " checked)"))))
    else pair

module _ {W : Type 0} where
  unfoldable pub independence_label : TokenReport W → Str
  unfolding decimal
  independence_label tr =
      if is_exit_only tr.verdict then dash else counts_label (str "->") tr.n tr.m tr.covered

  unfoldable pub independence_label_html : TokenReport W → Str
  unfolding decimal
  independence_label_html tr =
      if is_exit_only tr.verdict then dash else counts_label (str " → ") tr.n tr.m tr.covered

  unfoldable pub funder_description : ClusterGroup W → Str
  funder_description c = elim c.shared_funder [
    | some funder ↦
        str "shared funder "
        ++ ((if str_eq funder.label [] then str "unlabelled funder" else funder.label)
            ++ (str " (" ++ (funder.address ++ str ")")))
    | none ↦
        if str_eq c.via_buyer []
        then if c.no_funder_data
          then str "no funder data (not evidence of independence)"
          else str "independent (no shared funder)"
        else str "funder is itself a buyer: " ++ c.via_buyer
  ]

-- Cut to `n` bytes, whose last is replaced by an ellipsis.
unfoldable pub truncate_str : Str → ℕ → Str
truncate_str s n = if leb (length s) n then s else take (n - 1) s ++ str "…"

module _ {W : Type 0} ⦃f : Float64 W⦄ ⦃t : FloatText W⦄ where
  unfoldable pub score_color : W → Str
  score_color s =
      if f.le (f.ratio 7 10) s
      then ansi_green
      else if f.le (f.ratio 4 10) s
      then ansi_yellow
      else ansi_red

  unfoldable pub score_class : W → Str
  score_class s =
      if f.le (f.ratio 7 10) s
      then str "score-good"
      else if f.le (f.ratio 4 10) s
      then str "score-mid"
      else str "score-bad"

  unfoldable pub signed_usd : W → Str
  signed_usd v =
      if f.lt v f.zero
      then str "-" ++ (str "$" ++ t.fixed 0 (f.neg v))
      else str "+" ++ (str "$" ++ t.fixed 0 v)

  unfoldable pub format_signed_usd : W → Str
  format_signed_usd v =
      if f.lt v f.zero
      then str "−" ++ (str "$" ++ t.fixed 0 (f.neg v))
      else str "+" ++ (str "$" ++ t.fixed 0 v)

  unfoldable pub exch_flow_color : W → Str
  exch_flow_color v = if f.lt v f.zero then ansi_green else ansi_red

  unfoldable pub smart_flow_color : W → Str
  smart_flow_color v = if f.lt v f.zero then ansi_red else ansi_green

  unfoldable pub exch_flow_class : W → Str
  exch_flow_class v = if f.lt v f.zero then str "flow-neg" else str "flow-pos"

  unfoldable pub smart_flow_class : W → Str
  smart_flow_class v = if f.lt v f.zero then str "flow-sell" else str "flow-buy"

  -- Nothing for a missing value and for zero.
  unfoldable pub format_usd : Option W → Str
  format_usd none = []
  format_usd (some v) = if f.eq v f.zero then [] else str "$" ++ t.fixed 0 v

  abbrev pub late_multiple : W
  late_multiple = f.of_nat 5

  unfoldable pub multiple : W → Str
  multiple x = if f.le (f.of_nat 10) x then t.fixed 0 x ++ str "x" else t.fixed 1 x ++ str "x"

  unfoldable pub move_late : Option (Move W) → Bool
  move_late none = false
  move_late (some m) = f.le late_multiple m.peak_multiple

  unfoldable pub move_label : Option (Move W) → Str
  unfolding multiple
  move_label none = []
  move_label (some m) =
      str "peaked "
      ++ (multiple m.peak_multiple
          ++ (str ", now " ++ (multiple m.now_multiple ++ str " since smart money")))

  unfoldable pub move_class : Option (Move W) → Str
  unfolding move_late
  move_class m = if move_late m then str "late" else []
