-- ===== src/Pipeline/Universe/Limit.antt =====
-- internal/pipeline/pipeline.go, limitUniverse: which wallets it keeps.
use mathlib.Core.List.Permᴰ
use smart_money_falsifier.Base.{
  ℕ, ◌≡◌, refl, List, Distinct, keys, Str, str_key, Dict, MapOrder, sort_by,
}
use smart_money_falsifier.Float.{Float64, IsOrdered}
use smart_money_falsifier.Pipeline.Universe.{
  WalletAgg, TokenAgg, DexTrade, ParseTime, derive_universe, rank_less, bought_value,
  limit_universe,
}
use smart_money_falsifier.Pipeline.Universe.Kept.{derive_universe-Distinct}
use smart_money_falsifier.Pipeline.Universe.Ranking.{IsValued, valued, ranking_order}

module _ {W : Type 0} ⦃f : Float64 W⦄ (laws : IsOrdered W) where
  pub ranking-eq :
      (order : MapOrder) (wallets : Dict Str (WalletAgg W))
      → Distinct (keys wallets)
      → IsValued wallets
      → sort_by rank_less (valued (order.shuffle (Str × WalletAgg W) 0 wallets))
        ≡ sort_by rank_less (valued wallets)
  ranking-eq order wallets d h = ranking_order laws wallets d h (
      Permᴰ.map (λ kv. (kv.0, bought_value kv.1))
        (order.shuffle_perm (Str × WalletAgg W) 0 wallets))

  limit-order :
      (order order' : MapOrder) (wallets : Dict Str (WalletAgg W)) (tokens : Dict Str TokenAgg)
      (max : ℕ)
      → Distinct (keys wallets)
      → IsValued wallets
      → limit_universe order wallets tokens max ≡ limit_universe order' wallets tokens max
  unfolding limit_universe
  limit-order order order' wallets tokens max d h =
      rw (ranking-eq order wallets d h, ranking-eq order' wallets d h) refl

  -- The wallets that limitUniverse keeps do not depend on the order in which Go ranges over the map of the
  -- wallets, where what each wallet of the seed bought adds up to a number: equal sums are told apart
  -- by the address. The universe and the cap are any.
  pub limit_universe_order :
      (order order' : MapOrder) (parse : ParseTime) (seed : List (DexTrade W)) (max : ℕ)
      → IsValued (derive_universe parse seed).0
      → limit_universe order (derive_universe parse seed).0 (derive_universe parse seed).1 max
        ≡ limit_universe order' (derive_universe parse seed).0 (derive_universe parse seed).1 max
  limit_universe_order order order' parse seed max h =
      limit-order order order' (derive_universe parse seed).0 (derive_universe parse seed).1 max
        (derive_universe-Distinct parse seed) h
