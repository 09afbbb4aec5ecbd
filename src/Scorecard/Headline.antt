-- ===== src/Scorecard/Headline.antt =====
-- cmd/scorecard/table.go, censusHeadline: the sentence that names the shared funders.
pub mod Shared
use smart_money_falsifier.Base.{
  ℕ, ◌+◌, ◌-◌, List, [], ◌∷◌, ◌++◌, map, if◌then◌else◌, leb, ltb, ◌==◌, length, take, fold, Str,
  str, str_eq, join,
}
use smart_money_falsifier.Score.Census.{FunderCount, FunderCensus}
use smart_money_falsifier.Scorecard.Format.{decimal}

-- The funders before the `break` of the loop.
unfoldable pub leading : List FunderCount → List FunderCount
leading [] = []
leading (fc ∷ fcs) = if leb fc.wallet_count 1 then [] else fc ∷ leading fcs

-- `traced`, over the funders that the loop reaches.
unfoldable pub traced : List FunderCount → ℕ
traced fcs = fold (λ sum fc. sum + fc.wallet_count) 0 fcs

unfoldable pub funded : FunderCount → Str
unfolding decimal
funded fc =
    (if str_eq fc.label [] then fc.address else fc.label)
    ++ (str " funded " ++ decimal fc.wallet_count)

abbrev pub named : ℕ
named = 3

unfoldable pub census_headline : FunderCensus → ℕ → Str
unfolding leading traced funded join decimal
census_headline census wallet_count =
    let parts = map funded (leading census.top_funders) in
    let funders = length parts in
    let noun = if funders == 1 then str "address" else str "addresses" in
    let shown = if ltb named funders then take named parts else parts in
    let tail =
      if ltb named funders
      then str ", and " ++ (decimal (funders - named) ++ str " more")
      else [] in
    if funders == 0
    then decimal census.distinct_funders
      ++ (str " distinct First Funders across "
          ++ (decimal wallet_count ++ str " wallets — none shared by more than one wallet."))
    else decimal (traced (leading census.top_funders))
      ++ (str " of "
          ++ (decimal wallet_count
              ++ (str " top smart-money wallets were funded by just "
                  ++ (decimal funders
                      ++ (str " "
                          ++ (noun
                              ++ (str ": " ++ (join (str ", ") shown ++ (tail ++ str ".")))))))))
