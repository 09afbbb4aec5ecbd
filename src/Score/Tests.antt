-- ===== src/Score/Tests.antt =====
-- Runs of the scoring functions on small inputs, and the theorems at such inputs.
use smart_money_falsifier.Base.{
  IsOrderedBy, select, ℕ, ◌+◌, ◌<◌, ◌≡◌, refl, get_or, arith, Bool, true, false, some, List, [],
  ◌∷◌, map, Str, str, in_order, backwards, pos, length, lookup, insert, str_eq, str_lt, sort_by,
  insert_by, ◌↔◌, Distinct, all_apart-Distinct, Memᴰ, Permᴰ, All,
}
use smart_money_falsifier.Score.UnionFind.{find, union}
use smart_money_falsifier.Float.Whole.{Whole, nan, whole, whole_float}
use smart_money_falsifier.Float.Whole.{Whole-IsOrdered}
use smart_money_falsifier.Score.Verdict.{confirmed, fires, decide_verdict}
use smart_money_falsifier.Score.Verdict.Table.{Row, decide_verdict_iff}
use smart_money_falsifier.Score.UnionFind.Joined.{Joined}
use smart_money_falsifier.Score.Cluster.{
  BuyerInput, ClusterGroup, cluster, parents, buyer, zero_buyer,
}
use smart_money_falsifier.Score.Cluster.Links.{Linked, addresses}
use smart_money_falsifier.Score.Cluster.Ends.{find-ends}
use smart_money_falsifier.Score.Census.{compute_funder_census}
use smart_money_falsifier.Score.Census.Counts.{is_funded_by}
use smart_money_falsifier.Score.Census.Listed.{listed, listed-census}
use smart_money_falsifier.Score.UnionFind.Forest.{up}
use smart_money_falsifier.Score.Cluster.Result.{all_apart_iff, one_source_iff}
use smart_money_falsifier.Score.Cluster.Members.{gathered, clusters-partition, together→Joined}
use smart_money_falsifier.Score.Wallets.{WalletInput, score_wallets}
use smart_money_falsifier.Score.Wallets.Bounds.{IsShare, IsRankedBefore, score_wallets-lem}

abbrev buyer_of : Str → List Str → Bool → BuyerInput Whole
buyer_of a fs checked = record {
  address = a;
  label = [];
  pnl_usd = whole (pos 0);
  win_rate = whole (pos 0);
  funders = map (λ x. record { address = x; label = [] }) fs;
  funder_checked = checked;
}

-- `a` and `b` share the funder `x`; `d` funds `c`; `e` was never checked.
abbrev five : List (BuyerInput Whole)
five =
    buyer_of (str "a") (str "x" ∷ []) true
    ∷ buyer_of (str "b") (str "x" ∷ str "y" ∷ []) true
    ∷ buyer_of (str "c") (str "d" ∷ []) true
    ∷ buyer_of (str "d") [] true
    ∷ buyer_of (str "e") [] false
    ∷ []

parents-five : parents in_order five ≡ 0 ∷ 0 ∷ 2 ∷ 2 ∷ 4 ∷ []
unfolding parents find union lookup insert str_eq str
parents-five = refl

five_clusters : (cluster in_order five).m ≡ 3
unfolding cluster find union lookup insert str_eq str sort_by insert_by str_lt
five_clusters = refl

five-Distinct : Distinct (addresses five)
unfolding str str_eq
five-Distinct = all_apart-Distinct (addresses five) refl

decide_verdict_iff_example :
    (decide_verdict 4 4 4 (whole (pos 5)) (whole (pos 0)) true ≡ confirmed)
    ↔ Row 4 4 4 (fires (whole (pos 5)) (whole (pos 0)) true) true confirmed
decide_verdict_iff_example = decide_verdict_iff 4 4 4 (whole (pos 5)) (whole (pos 0)) true confirmed

all_apart_iff_example :
    ((cluster backwards five).m ≡ length five) ↔ ((i j : ℕ) → Linked five i j → i ≡ j)
all_apart_iff_example = all_apart_iff backwards five five-Distinct

one_source_iff_example :
    ((cluster in_order five).m ≡ 1)
    ↔ ((i j : ℕ) → i < length five → j < length five → Joined (Linked five) i j)
one_source_iff_example = one_source_iff in_order five five-Distinct (omega arith)

clusters-partition_example : Permᴰ (gathered (cluster backwards five).clusters) five
clusters-partition_example = clusters-partition backwards five

abbrev pair_group : ClusterGroup Whole
pair_group = record {
  members =
      buyer_of (str "a") (str "x" ∷ []) true
      ∷ buyer_of (str "b") (str "x" ∷ str "y" ∷ []) true
      ∷ [];
  shared_funder = some (record { address = str "x"; label = [] });
  via_buyer = [];
  no_funder_data = false;
}

pair_group-mem : Memᴰ pair_group (cluster in_order five).clusters
unfolding cluster find union lookup insert str_eq str sort_by insert_by str_lt
pair_group-mem = Memᴰ.head refl

together→Joined_example :
    (i : ℕ) × (j : ℕ) × (buyer five i ≡ get_or pair_group.members 0 zero_buyer)
    × (buyer five j ≡ get_or pair_group.members 1 zero_buyer)
    × Joined (Linked five) i j
together→Joined_example =
    together→Joined in_order five pair_group (get_or pair_group.members 0 zero_buyer)
      (get_or pair_group.members 1 zero_buyer) pair_group-mem (Memᴰ.head refl)
      (Memᴰ.tail (Memᴰ.head refl))

abbrev two_wallets : List (WalletInput Whole)
two_wallets =
    record {
      address = str "a";
      label = [];
      realized_pnl_usd = whole (pos 7);
      win_rate = nan;
      funders = [];
      funder_checked = true;
      last_trade_time = pos 0;
      bought_tokens = [];
    }
    ∷ record {
      address = str "b";
      label = [];
      realized_pnl_usd = whole (pos 3);
      win_rate = whole (pos 1);
      funders = [];
      funder_checked = true;
      last_trade_time = pos 10;
      bought_tokens = record { token_key = str "k"; trade_value_usd = whole (pos 2) } ∷ [];
    }
    ∷ []

score_wallets-lem_example :
    Permᴰ
      (map (λ r. r.address) (score_wallets in_order two_wallets [] (pos 20)))
      (str "a" ∷ str "b" ∷ [])
    × All (λ r. IsShare Whole-IsOrdered r.score) (score_wallets in_order two_wallets [] (pos 20))
    × IsOrderedBy IsRankedBefore (score_wallets in_order two_wallets [] (pos 20))
score_wallets-lem_example = score_wallets-lem Whole-IsOrdered in_order two_wallets [] (pos 20)

find-ends_example :
    (find (length five + 3) (parents in_order five) 2
      ≡ find (length five) (parents in_order five) 2)
    × (up (parents in_order five) (find (length five) (parents in_order five) 2).1
        ≡ (find (length five) (parents in_order five) 2).1)
find-ends_example = find-ends in_order five 2 3 (omega arith)

listed-census_example :
    listed (compute_funder_census in_order five).top_funders (str "x")
    ≡ length (select (is_funded_by (str "x")) five)
listed-census_example = listed-census in_order five (str "x")
