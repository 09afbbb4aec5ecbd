-- ===== src/Score/Verdict.antt =====
-- internal/score/verdict.go: the categorical label of one token, from its cluster counts and flows.
pub mod Table
use smart_money_falsifier.Base.{ℕ, Bool, true, false, not, ◌&&◌, ltb, ◌==◌, if◌then◌else◌}
use smart_money_falsifier.Float.{Float64}

pub data Verdict : Type 0 where
  both thin concentrated distributing confirmed weak unverified exit_only independent : Verdict

-- A constant in the float64 of the model.
abbrev pub min_signal_usd : {W : Type 0} ⦃f : Float64 W⦄ → W
min_signal_usd ⦃f⦄ = f.of_nat 1000

module _ {W : Type 0} ⦃f : Float64 W⦄ where
  unfoldable pub fires : W → W → Bool → Bool
  fires smart_trader_net_flow_usd exchange_net_flow_usd has_flow =
      if not has_flow
      then false
      else f.lt f.zero smart_trader_net_flow_usd && f.lt f.zero exchange_net_flow_usd

  unfoldable pub decide_verdict : ℕ → ℕ → ℕ → W → W → Bool → Verdict
  decide_verdict n m covered smart_trader_net_flow_usd exchange_net_flow_usd has_flow =
      let dist = fires smart_trader_net_flow_usd exchange_net_flow_usd has_flow in
      if ltb n 3
      then if dist then exit_only else weak
      else if m == 1
      then if dist then both else thin
      else if ltb m n
      then if dist then both else concentrated
      else if ltb covered n
      then unverified
      else if dist
      then distributing
      else if not has_flow
      then independent
      else confirmed
