-- ===== src/Pipeline/Floor.antt =====
-- internal/pipeline/pipeline.go, the signal floor and the order of the report: decideWithFloor and
-- verdictSeverity.
pub mod Laws
use smart_money_falsifier.Base.{ℕ, Bool, if◌then◌else◌}
use smart_money_falsifier.Float.{Float64}
use smart_money_falsifier.Score.Verdict.{
  Verdict, both, thin, concentrated, distributing, confirmed, weak, unverified, exit_only,
  independent, decide_verdict,
}

module _ {W : Type 0} ⦃f : Float64 W⦄ where
  unfoldable pub decide_with_floor : ℕ → ℕ → ℕ → W → W → Bool → W → W → Verdict
  decide_with_floor n m covered smart_flow exch_flow exit_checkable bought_usd min_signal_usd =
      let v = decide_verdict n m covered smart_flow exch_flow exit_checkable in
      if f.le min_signal_usd bought_usd then v else elim v [
        | thin ↦ thin
        | concentrated ↦ concentrated
        | both ↦ both
        | _ ↦ decide_verdict 0 m covered smart_flow exch_flow exit_checkable
      ]

unfoldable pub verdict_severity : Verdict → ℕ
verdict_severity both = 0
verdict_severity thin = 1
verdict_severity concentrated = 2
verdict_severity distributing = 3
verdict_severity exit_only = 3
verdict_severity confirmed = 4
verdict_severity independent = 5
verdict_severity unverified = 6
verdict_severity weak = 7
