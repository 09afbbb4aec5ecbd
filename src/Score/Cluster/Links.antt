-- ===== src/Score/Cluster/Links.antt =====
-- When two buyers are linked, said with no reference to how Cluster computes it.
use smart_money_falsifier.Base.{ℕ, ◌<◌, List, map, Memᴰ, length, Str}
use smart_money_falsifier.Float.{Float64}
use smart_money_falsifier.Score.Cluster.{BuyerInput, buyer}

abbrev pub addresses : {W : Type 0} → List (BuyerInput W) → List Str
addresses buyers = map (λ b. b.address) buyers

module _ {W : Type 0} ⦃f : Float64 W⦄ (buyers : List (BuyerInput W)) where
  -- Buyer `i` names `a` as a First Funder.
  abbrev pub Claims : ℕ → Str → Type 0
  Claims i a = Memᴰ a (map (λ g. g.address) (buyer buyers i).funders)

  -- The two ways in which docs/DESIGN.md collapses two wallets: they share a funder address, or the
  -- second is itself a funder of the first.
  pub data Linked (i j : ℕ) : Type 0 where
    share : (a : Str) → i < length buyers → j < length buyers → Claims i a → Claims j a → Linked i j
    funds : i < length buyers → j < length buyers → Claims i (buyer buyers j).address → Linked i j

  pub Linked-lt : {i j : ℕ} → Linked i j → (i < length buyers) × (j < length buyers)
  Linked-lt (share a li lj ci cj) = (li, lj)
  Linked-lt (funds li lj c) = (li, lj)
