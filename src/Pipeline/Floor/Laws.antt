-- ===== src/Pipeline/Floor/Laws.antt =====
-- What the signal floor withholds and what it lets stand.
use smart_money_falsifier.Base.{ℕ, ◌≡◌, ◌↔◌, ◌⊎◌, inl, inr, Bool, true, false, Bool-cases, arith}
use smart_money_falsifier.Float.{Float64}
use smart_money_falsifier.Score.Verdict.{
  Verdict, both, thin, concentrated, distributing, confirmed, unverified, exit_only, independent,
  fires, decide_verdict,
}
use smart_money_falsifier.Pipeline.Floor.{decide_with_floor}

-- A verdict that says "no two buyers share a funder".
abbrev pub IsClearing : Verdict → Type 0
IsClearing confirmed = Unit
IsClearing independent = Unit
IsClearing unverified = Unit
IsClearing distributing = Unit
IsClearing _ = ⊥

-- A verdict that rests on a shared funder which was seen.
abbrev pub IsShared : Verdict → Type 0
IsShared thin = Unit
IsShared concentrated = Unit
IsShared both = Unit
IsShared _ = ⊥

module _ {W : Type 0} ⦃f : Float64 W⦄ (n m covered : ℕ) (smart exchange : W) (checkable : Bool)
    (bought floor : W) where
  -- The verdict that a token gets.
  abbrev pub floored : Verdict
  floored = decide_with_floor n m covered smart exchange checkable bought floor

  abbrev pub unfloored : Verdict
  unfloored = decide_verdict n m covered smart exchange checkable

  -- With less bought than the floor, or a sum that is NaN, the verdict never says that no two buyers
  -- share a funder.
  pub not-IsClearing_below : f.le floor bought ≡ false → ¬ IsClearing floored
  unfolding decide_with_floor decide_verdict
  not-IsClearing_below low = ground arith

  -- A shared funder that was seen is reported whatever was bought.
  pub floored_of_shared : IsShared unfloored → floored ≡ unfloored
  unfolding decide_with_floor
  floored_of_shared s = elim (Bool-cases (f.le floor bought)) [
    | inl high ↦ rw high
    | inr low ↦ rw low (keep unfloored s)
  ]
    where
      keep :
          (v : Verdict)
          → IsShared v
          → (elim v [
            | thin ↦ thin
            | concentrated ↦ concentrated
            | both ↦ both
            | _ ↦ decide_verdict 0 m covered smart exchange checkable
          ])
            ≡ v
      keep v s = ground arith

  -- Below the floor the exit signal still shows: the verdict is BOTH or EXIT_ONLY exactly when it
  -- fires.
  pub exit_below_iff :
      f.le floor bought ≡ false
      → ((floored ≡ both) ⊎ (floored ≡ exit_only)) ↔ (fires smart exchange checkable ≡ true)
  unfolding decide_with_floor decide_verdict
  exit_below_iff low = (ground arith, ground arith)
