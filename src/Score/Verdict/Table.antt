-- ===== src/Score/Verdict/Table.antt =====
-- The verdict table of docs/DESIGN.md as a relation, and `decide_verdict` against it.
use smart_money_falsifier.Base.{ℕ, ◌≤◌, ◌<◌, ◌≡◌, ◌≢◌, ◌↔◌, ◌⊎◌, Bool, true, false, arith}
use smart_money_falsifier.Float.{Float64}
use smart_money_falsifier.Score.Verdict.{
  Verdict, both, thin, concentrated, distributing, confirmed, weak, unverified, exit_only,
  independent, fires, decide_verdict,
}

-- One constructor for each row: `n` buyers in `m` clusters, `covered` of them checked, the exit
-- signal `dist`, and whether there was an exchange side to look at.
pub data Row (n m covered : ℕ) (dist has_flow : Bool) : Verdict → Type 0 where
  few : n < 3 → dist ≡ false → Row n m covered dist has_flow weak
  few_exit : n < 3 → dist ≡ true → Row n m covered dist has_flow exit_only
  one_source : 3 ≤ n → m ≡ 1 → dist ≡ false → Row n m covered dist has_flow thin
  some_shared : 3 ≤ n → m ≢ 1 → m < n → dist ≡ false → Row n m covered dist has_flow concentrated
  shared_exit : 3 ≤ n → (m ≡ 1) ⊎ (m < n) → dist ≡ true → Row n m covered dist has_flow both
  unchecked : 3 ≤ n → m ≢ 1 → n ≤ m → covered < n → Row n m covered dist has_flow unverified
  clean_exit :
      3 ≤ n → m ≢ 1 → n ≤ m → n ≤ covered → dist ≡ true → Row n m covered dist has_flow distributing
  no_exchange :
      3 ≤ n
      → m ≢ 1
      → n ≤ m
      → n ≤ covered
      → dist ≡ false
      → has_flow ≡ false
      → Row n m covered dist has_flow independent
  survived :
      3 ≤ n
      → m ≢ 1
      → n ≤ m
      → n ≤ covered
      → dist ≡ false
      → has_flow ≡ true
      → Row n m covered dist has_flow confirmed

module _ {W : Type 0} ⦃f : Float64 W⦄ (n m covered : ℕ) (smart exchange : W) (has_flow : Bool) where
  Row→decide_verdict :
      {v : Verdict}
      → Row n m covered (fires smart exchange has_flow) has_flow v
      → decide_verdict n m covered smart exchange has_flow ≡ v
  unfolding decide_verdict
  Row→decide_verdict (few h d) = ground arith
  Row→decide_verdict (few_exit h d) = ground arith
  Row→decide_verdict (one_source h k d) = ground arith
  Row→decide_verdict (some_shared h k l d) = ground arith
  Row→decide_verdict (shared_exit h k d) = ground arith
  Row→decide_verdict (unchecked h k l c) = ground arith
  Row→decide_verdict (clean_exit h k l c d) = ground arith
  Row→decide_verdict (no_exchange h k l c d x) = ground arith
  Row→decide_verdict (survived h k l c d x) = ground arith

  decide_verdict→Row :
      (v : Verdict)
      → decide_verdict n m covered smart exchange has_flow ≡ v
      → Row n m covered (fires smart exchange has_flow) has_flow v
  unfolding decide_verdict
  decide_verdict→Row both e = shared_exit (ground arith) (ground arith) (ground arith)
  decide_verdict→Row thin e = one_source (ground arith) (ground arith) (ground arith)
  decide_verdict→Row concentrated e =
      some_shared (ground arith) (ground arith) (ground arith) (ground arith)
  decide_verdict→Row distributing e =
      clean_exit (ground arith) (ground arith) (ground arith) (ground arith) (ground arith)
  decide_verdict→Row confirmed e =
      survived (ground arith) (ground arith) (ground arith) (ground arith) (ground arith)
        (ground arith)
  decide_verdict→Row weak e = few (ground arith) (ground arith)
  decide_verdict→Row unverified e =
      unchecked (ground arith) (ground arith) (ground arith) (ground arith)
  decide_verdict→Row exit_only e = few_exit (ground arith) (ground arith)
  decide_verdict→Row independent e =
      no_exchange (ground arith) (ground arith) (ground arith) (ground arith) (ground arith)
        (ground arith)

  -- The code returns a verdict exactly when the table has a row for it.
  pub decide_verdict_iff :
      (v : Verdict)
      → (decide_verdict n m covered smart exchange has_flow ≡ v)
        ↔ Row n m covered (fires smart exchange has_flow) has_flow v
  decide_verdict_iff v = (decide_verdict→Row v, Row→decide_verdict)
