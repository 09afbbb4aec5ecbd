-- ===== src/Score/Census.antt =====
-- internal/score/cluster.go, ComputeFunderCensus: how many wallets each funder pays. The struct that
-- a map entry points to is the entry's value.
pub mod Counts
pub mod Listed
use smart_money_falsifier.Base.{
  ℕ, ◌+◌, Bool, not, ◌&&◌, List, [], ◌∷◌, map, if◌then◌else◌, ltb, ◌==◌, length, select, fold, any,
  Str, str_eq, str_lt, str_key, Dict, lookup_or, insert, MapOrder, sort_by,
}
use smart_money_falsifier.Score.Cluster.{Funder, BuyerInput}

pub record FunderCount : Type 0 where
  pub address : Str
  pub label : Str
  pub wallet_count : ℕ

pub record FunderCensus : Type 0 where
  pub distinct_funders : ℕ
  pub shared_funders : ℕ
  pub top_funders : List FunderCount

-- `fc`: the entry of the funder, new where there is none, with one wallet more.
unfoldable pub count_funder : Dict Str FunderCount → Funder → Dict Str FunderCount
count_funder counts funder =
    let fc =
      lookup_or funder.address
        (record { address = funder.address; label = funder.label; wallet_count = 0 }) counts in
    insert funder.address
      (record {
        address = fc.address;
        label =
            if str_eq fc.label [] && not (str_eq funder.label []) then funder.label else fc.label;
        wallet_count = fc.wallet_count + 1;
      })
      counts

-- One funder of a wallet, with the addresses that the wallet's loop has `seen`.
unfoldable pub see_funder :
    List Str × Dict Str FunderCount → Funder → List Str × Dict Str FunderCount
unfolding count_funder
see_funder (seen, counts) funder =
    if any (str_eq funder.address) seen
    then (seen, counts)
    else (funder.address ∷ seen, count_funder counts funder)

-- Most wallets first, then by address.
abbrev pub count_less : FunderCount → FunderCount → Bool
count_less a b =
    if a.wallet_count == b.wallet_count
    then str_lt a.address b.address
    else ltb b.wallet_count a.wallet_count

module _ {W : Type 0} where
  unfoldable pub count_wallet : Dict Str FunderCount → BuyerInput W → Dict Str FunderCount
  unfolding see_funder
  count_wallet counts w = (fold see_funder ([], counts) w.funders).1

  unfoldable pub compute_funder_census : MapOrder → List (BuyerInput W) → FunderCensus
  unfolding count_wallet
  compute_funder_census order wallets =
      let counts = fold count_wallet [] wallets in
      let ranged = map (λ kv. kv.1) (order.shuffle (Str × FunderCount) 0 counts) in
      record {
        distinct_funders = length counts;
        shared_funders = length (select (λ fc. ltb 1 fc.wallet_count) ranged);
        top_funders = sort_by count_less ranged;
      }
