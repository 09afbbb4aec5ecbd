-- ===== src/Scorecard/Page/Masked.antt =====
-- cmd/scorecard/report.go: the page against the page of the same report with every text masked.
use mathlib.Core.List.{append_assoc}
use smart_money_falsifier.Base.{
  ◌≡◌, refl, sym, Bool, true, false, List, [], ◌∷◌, ◌++◌, map, if◌then◌else◌, select-append,
  flat_map, Str, str_eq,
}
use smart_money_falsifier.Float.{Float64}
use smart_money_falsifier.Scorecard.Format.{FloatText}
use smart_money_falsifier.Scorecard.Html.{Piece, markup, text, render}
use smart_money_falsifier.Scorecard.Html.Safe.{
  is_delimiter, delimiters, markup_of, delimiters-render,
}
use smart_money_falsifier.Scorecard.Report.{
  ReportData, ReportFunderRow, ReportTokenRow, ReportClusterRow, ReportMemberRow, ReportWalletRow,
}
use smart_money_falsifier.Scorecard.Page.{
  funder_html, member_html, cluster_html, token_html, wallet_html, page_html, report_html,
}

-- A text that is there is a letter, and one that is not stays away.
abbrev pub mask : Str → Str
mask [] = []
mask (c ∷ s) = b'x' ∷ []

mask-empty : (s : Str) → str_eq (mask s) [] ≡ str_eq s []
unfolding str_eq
mask-empty [] = refl
mask-empty (c ∷ s) = refl

abbrev pub mask_funder : ReportFunderRow → ReportFunderRow
mask_funder r = record r { label = mask r.label; address = mask r.address }

module _ {W : Type 0} where
  abbrev pub mask_member : ReportMemberRow W → ReportMemberRow W
  mask_member r = record r { address = mask r.address; label = mask r.label }

  abbrev pub mask_cluster : ReportClusterRow W → ReportClusterRow W
  mask_cluster r = record r {
    funder_desc = mask r.funder_desc;
    members = map mask_member r.members;
  }

  abbrev pub mask_token : ReportTokenRow W → ReportTokenRow W
  mask_token r = record r {
    symbol = mask r.symbol;
    name = mask r.name;
    verdict = mask r.verdict;
    verdict_class = mask r.verdict_class;
    independence = mask r.independence;
    independence_class = mask r.independence_class;
    smart_flow = mask r.smart_flow;
    smart_flow_class = mask r.smart_flow_class;
    exch_flow = mask r.exch_flow;
    exch_flow_class = mask r.exch_flow_class;
    flow_note = mask r.flow_note;
    liquidity = mask r.liquidity;
    move = mask r.move;
    move_class = mask r.move_class;
    clusters = map mask_cluster r.clusters;
  }

  abbrev pub mask_wallet : ReportWalletRow W → ReportWalletRow W
  mask_wallet r = record r { address = mask r.address; label = mask r.label }

  -- The report with all its texts masked.
  abbrev pub masked : ReportData W → ReportData W
  masked d = record d {
    generated_at = mask d.generated_at;
    census_headline = mask d.census_headline;
    min_signal = mask d.min_signal;
    top_funders = map mask_funder d.top_funders;
    wallets = map mask_wallet d.wallets;
    tokens = map mask_token d.tokens;
  }

markup_of-append : (p q : List Piece) → markup_of (p ++ q) ≡ markup_of p ++ markup_of q
markup_of-append [] q = refl
markup_of-append (markup s ∷ p) q =
    rw (markup_of-append p q) (sym (append_assoc s (markup_of p) (markup_of q)))
markup_of-append (text s ∷ p) q = markup_of-append p q

markup_of-if :
    (b : Bool) (p q : List Piece)
    → markup_of (if b then p else q) ≡ (if b then markup_of p else markup_of q)
markup_of-if true p q = refl
markup_of-if false p q = refl

each :
    {A : Type 0} (g : A → List Piece) (m : A → A)
    → ((x : A) → markup_of (g (m x)) ≡ markup_of (g x))
    → (xs : List A) → markup_of (flat_map g (map m xs)) ≡ markup_of (flat_map g xs)
each g m h [] = refl
each g m h (x ∷ xs) =
    rw
      (
        markup_of-append (g (m x)) (flat_map g (map m xs)),
        markup_of-append (g x) (flat_map g xs),
        h x,
        each g m h xs,
      )
      refl

ruleset markups = (markup_of-append, markup_of-if, mask-empty)

funder-masked :
    (r : ReportFunderRow) → markup_of (funder_html (mask_funder r)) ≡ markup_of (funder_html r)
unfolding funder_html
funder-masked r = simp markups

module _ {W : Type 0} ⦃f : Float64 W⦄ ⦃t : FloatText W⦄ where
  member-masked :
      (r : ReportMemberRow W) → markup_of (member_html (mask_member r)) ≡ markup_of (member_html r)
  unfolding member_html
  member-masked r = simp markups

  cluster-masked :
      (r : ReportClusterRow W)
      → markup_of (cluster_html (mask_cluster r)) ≡ markup_of (cluster_html r)
  unfolding cluster_html
  cluster-masked r = simp (markups, each member_html mask_member member-masked)

  token-masked :
      (r : ReportTokenRow W) → markup_of (token_html (mask_token r)) ≡ markup_of (token_html r)
  unfolding token_html
  token-masked r = simp (markups, each cluster_html mask_cluster cluster-masked)

  wallet-masked :
      (r : ReportWalletRow W) → markup_of (wallet_html (mask_wallet r)) ≡ markup_of (wallet_html r)
  unfolding wallet_html
  wallet-masked r = simp markups

  page-masked : (d : ReportData W) → markup_of (page_html (masked d)) ≡ markup_of (page_html d)
  unfolding page_html
  page-masked d = simp (
    markups,
    each funder_html mask_funder funder-masked,
    each token_html mask_token token-masked,
    each wallet_html mask_wallet wallet-masked,
  )

  -- No text of the API can change the structure of the report: all the brackets of tags and the quotes
  -- of attributes in the file are those of the file for the same report with every text that is there
  -- replaced by a letter, whatever the labels, symbols, names and addresses are.
  pub report_html-masked :
      (head : Str) (d : ReportData W)
      → delimiters (report_html head d) ≡ delimiters (report_html head (masked d))
  unfolding report_html
  report_html-masked head d =
      rw
        (
          select-append is_delimiter head (render (page_html d)),
          select-append is_delimiter head (render (page_html (masked d))),
          delimiters-render (page_html d),
          delimiters-render (page_html (masked d)),
          page-masked d,
        )
        refl
