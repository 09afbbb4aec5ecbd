-- ===== src/Pipeline/Universe/Ranking.antt =====
-- internal/pipeline/pipeline.go, limitUniverse: its ranking of the wallets, as an order.
use mathlib.Core.List.Memᴰ
use smart_money_falsifier.Base.{
  ◌≡◌, refl, ap, sym, subst, false, List, [], ◌∷◌, map, Memᴰ, All, All-mem, All-intro, Distinct,
  keys, Str, str_key, Dict, lookup, sort_by, IsSorted, Permᴰ, sort_by_order_on, sort_by-IsSorted_on,
  mem-lookup, some,
}
use smart_money_falsifier.Float.{Float64, IsNum, IsOrdered}
use smart_money_falsifier.Float.Descending.{
  best_first_irrefl, best_first_asym, best_first_trans, not-best_first_trans, same_key,
  not-best_first-lt,
}
use smart_money_falsifier.Pipeline.Universe.{WalletAgg, rank_less, bought_value}

module _ {W : Type 0} ⦃f : Float64 W⦄ where
  -- An entry of the ranking: one of the list, with a number for its value.
  abbrev pub IsRanked : List (Str × W) → Str × W → Type 0
  IsRanked l r = Memᴰ r l × IsNum r.1

  -- The wallets with what they bought, in the order of the map.
  abbrev pub valued : Dict Str (WalletAgg W) → List (Str × W)
  valued wallets = map (λ kv. (kv.0, bought_value kv.1)) wallets

  pub keys-valued : (wallets : Dict Str (WalletAgg W)) → keys (valued wallets) ≡ keys wallets
  keys-valued [] = refl
  keys-valued (kv ∷ m) = ap (λ ks. kv.0 ∷ ks) (keys-valued m)

  -- Every wallet bought for a sum that is a number.
  abbrev pub IsValued : Dict Str (WalletAgg W) → Type 0
  IsValued wallets = All (λ kv. IsNum (bought_value kv.1)) wallets

  pub valued-IsRanked :
      (wallets : Dict Str (WalletAgg W))
      → IsValued wallets
      → All (IsRanked (valued wallets)) (valued wallets)
  valued-IsRanked wallets h = All-intro (valued wallets) (λ r m.
      let (kv, n, e) = Memᴰ.of_map (λ kv. (kv.0, bought_value kv.1)) wallets m in
      (m, subst (λ x. IsNum x.1) e (All-mem (λ kv. IsNum (bought_value kv.1)) wallets h n)))

module _ {W : Type 0} ⦃f : Float64 W⦄ (laws : IsOrdered W) where
  abbrev value : Str × W → W
  value r = r.1

  abbrev name : Str × W → Str
  name r = r.0

  rank_less_total :
      (l : List (Str × W))
      → Distinct (keys l)
      → (r s : Str × W) → IsRanked l r
      → IsRanked l s
      → rank_less r s ≡ false
      → rank_less s r ≡ false
      → r ≡ s
  rank_less_total l d (a, x) (b, y) p q h k =
      let same = same_key value name laws (a, x) (b, y) p.1 q.1 h k in
      let left = mem-lookup a x l d p.0 in
      let right = subst (λ k. lookup k l ≡ some y) (sym same) (mem-lookup b y l d q.0) in
      cc (same, left, right)

  -- The ranking is the one of the wallets in the order of their map.
  pub ranking_order :
      {l : List (Str × W)} (wallets : Dict Str (WalletAgg W))
      → Distinct (keys wallets)
      → IsValued wallets
      → Permᴰ l (valued wallets)
      → sort_by rank_less l ≡ sort_by rank_less (valued wallets)
  ranking_order wallets d h p =
      let l = valued wallets in
      sort_by_order_on (IsRanked l) rank_less (λ r i. best_first_irrefl value name laws r i.1)
        (λ r s t i j k. best_first_trans value name laws r s t i.1 j.1 k.1)
        (rank_less_total l (subst Distinct (sym (keys-valued wallets)) d)) p
        (valued-IsRanked wallets h)

  pub ranking-IsSorted :
      (wallets : Dict Str (WalletAgg W))
      → IsValued wallets
      → IsSorted rank_less (sort_by rank_less (valued wallets))
  ranking-IsSorted wallets h =
      sort_by-IsSorted_on (IsRanked (valued wallets)) rank_less
        (λ r s i j. best_first_asym value name laws r s i.1 j.1)
        (λ r s t i j k. not-best_first_trans value name laws r s t i.1 j.1 k.1) (valued wallets)
        (valued-IsRanked wallets h)

  pub not-rank_less-lt :
      (l : List (Str × W)) (r s : Str × W)
      → IsRanked l r
      → IsRanked l s
      → rank_less s r ≡ false
      → f.lt r.1 s.1 ≡ false
  not-rank_less-lt l r s p q h = not-best_first-lt value name laws r s p.1 q.1 h
