-- ===== src/Pipeline/Assemble/Judged.antt =====
-- The verdict of a token, from Cluster through decideWithFloor, against the links between its buyers.
use smart_money_falsifier.Base.{
  ℕ, ◌≤◌, ◌<◌, ◌≡◌, ◌≢◌, ◌↔◌, refl, inl, inr, Bool, true, false, Bool-cases, List, [], ◌∷◌, ltb,
  ◌==◌, length, select, length-select-le, All, Distinct, MapOrder, arith,
}
use smart_money_falsifier.Float.{Float64}
use smart_money_falsifier.Score.Verdict.{Verdict, confirmed, fires, decide_verdict}
use smart_money_falsifier.Score.Cluster.{BuyerInput, cluster, count_covered}
use smart_money_falsifier.Score.Cluster.Links.{Linked, addresses}
use smart_money_falsifier.Score.Cluster.Result.{
  cluster-n, cluster-covered, cluster-m-le, fewer→Linked, all_apart_iff, one_source_iff,
}
use smart_money_falsifier.Pipeline.Floor.{decide_with_floor}
use smart_money_falsifier.Pipeline.Floor.Laws.{IsShared}

-- The steps from a token's buyers to its verdict.
abbrev pub judge :
    {W : Type 0} ⦃f : Float64 W⦄ → MapOrder → List (BuyerInput W) → W → W → Bool → W → W → Verdict
judge order buyers smart exchange checkable bought floor =
    let cr = cluster order buyers in
    decide_with_floor cr.n cr.m cr.covered smart exchange checkable bought floor

select-All :
    {A : Type 0} (p : A → Bool) (xs : List A)
    → length xs ≤ length (select p xs)
    → All (λ x. p x ≡ true) xs
select-All p [] h = tt
select-All p (x ∷ xs) h =
    let short = length-select-le p xs in
    elim (Bool-cases (p x)) [
      | inl t ↦ (t, select-All p xs (ground (arith, h, t)))
      | inr t ↦ absurd (ground (arith, h, t, short))
    ]

All-select :
    {A : Type 0} (p : A → Bool) (xs : List A)
    → All (λ x. p x ≡ true) xs
    → length xs ≤ length (select p xs)
All-select p [] h = omega arith
All-select p (x ∷ xs) (t, h) = rw t (omega (arith, All-select p xs h))

not_less : {m n : ℕ} → m ≤ n → (m ≡ n → ⊥) → m < n
not_less {m} {n} le ne = elim (Bool-cases (ltb m n)) [
  | inl lt ↦ ground (arith, lt)
  | inr ge ↦ absurd (ne (ground (arith, le, ge)))
]

module _ {W : Type 0} ⦃f : Float64 W⦄ where
  floored_confirmed_iff :
      (n m covered : ℕ) (smart exchange : W) (checkable : Bool) (bought floor : W)
      → (decide_with_floor n m covered smart exchange checkable bought floor ≡ confirmed) ↔ (
          (3 ≤ n)
          × (n ≤ covered)
          × (m ≢ 1)
          × (n ≤ m)
          × (fires smart exchange checkable ≡ false)
          × (checkable ≡ true)
          × (f.le floor bought ≡ true))
  unfolding decide_with_floor decide_verdict
  floored_confirmed_iff n m covered smart exchange checkable bought floor =
      (ground arith, ground arith)

  -- What a CONFIRMED token must be.
  pub record IsClean (buyers : List (BuyerInput W)) (smart exchange : W) (checkable : Bool)
      (bought floor : W) : Type 0 where
    pub enough : 3 ≤ length buyers
    pub checked : All (λ b. b.funder_checked ≡ true) buyers
    pub apart : (i j : ℕ) → Linked buyers i j → i ≡ j
    pub quiet : fires smart exchange checkable ≡ false
    pub observed : checkable ≡ true
    pub above : f.le floor bought ≡ true

  -- For buyers with different addresses: a token is CONFIRMED exactly when it has at least three
  -- buyers, the funders of each were fetched, no two of them are linked, an exchange side was seen,
  -- the exit signal does not fire, and the floor is met.
  pub confirmed_iff :
      (order : MapOrder) (buyers : List (BuyerInput W)) (smart exchange : W) (checkable : Bool)
      (bought floor : W)
      → Distinct (addresses buyers)
      → (judge order buyers smart exchange checkable bought floor ≡ confirmed)
        ↔ IsClean buyers smart exchange checkable bought floor
  unfolding count_covered
  confirmed_iff order buyers smart exchange checkable bought floor ds =
      let n_eq = cluster-n order buyers in
      let c_eq = cluster-covered order buyers in
      let m_le = cluster-m-le order buyers in
      let apart = all_apart_iff order buyers ds in
      let table =
        floored_confirmed_iff (cluster order buyers).n (cluster order buyers).m
          (cluster order buyers).covered smart exchange checkable bought floor in
      (
        λ e.
            let (a, b, c, d, q, o, l) = table.0 e in
            record {
              enough = omega (arith, n_eq);
              checked = select-All (λ b. b.funder_checked) buyers (omega (arith, n_eq, c_eq));
              apart = apart.0 (omega (arith, n_eq, m_le));
              quiet = q;
              observed = o;
              above = l;
            },
        λ h.
            let m_eq = apart.1 h.apart in
            let enough = h.enough in
            table.1 (
              omega (arith, n_eq, enough),
              omega (arith, n_eq, c_eq, All-select (λ b. b.funder_checked) buyers h.checked),
              (λ one. absurd (omega (arith, n_eq, m_eq, one, enough))),
              omega (arith, n_eq, m_eq),
              h.quiet,
              h.observed,
              h.above,
            ),
      )

  floored-IsShared_iff :
      (n m covered : ℕ) (smart exchange : W) (checkable : Bool) (bought floor : W)
      → IsShared (decide_with_floor n m covered smart exchange checkable bought floor)
        ↔ ((3 ≤ n) × (m < n))
  unfolding decide_with_floor decide_verdict
  floored-IsShared_iff n m covered smart exchange checkable bought floor =
      (ground arith, ground arith)

  -- For buyers with different addresses: a token is THIN, CONCENTRATED or BOTH exactly when it has at
  -- least three buyers and two different ones are linked, whatever was bought and whether or not the
  -- funders of the others were fetched.
  pub judge-IsShared :
      (order : MapOrder) (buyers : List (BuyerInput W)) (smart exchange : W) (checkable : Bool)
      (bought floor : W)
      → Distinct (addresses buyers)
      → IsShared (judge order buyers smart exchange checkable bought floor)
        ↔ ((3 ≤ length buyers) × ((i : ℕ) × (j : ℕ) × Linked buyers i j × (i ≢ j)))
  judge-IsShared order buyers smart exchange checkable bought floor ds =
      let n_eq = cluster-n order buyers in
      let m_le = cluster-m-le order buyers in
      let apart = all_apart_iff order buyers ds in
      let table =
        floored-IsShared_iff (cluster order buyers).n (cluster order buyers).m
          (cluster order buyers).covered smart exchange checkable bought floor in
      (
        λ s.
            let (a, b) = table.0 s in
            (omega (arith, n_eq), fewer→Linked order buyers (omega (arith, n_eq))),
        λ (enough, (i, j, l, ne)).
            elim (Bool-cases (ltb (cluster order buyers).m (length buyers))) [
              | inl lt ↦ table.1 (omega (arith, n_eq, enough), ground (arith, n_eq, lt))
              | inr ge ↦ absurd (ne (apart.0 (ground (arith, m_le, ge)) i j l))
            ],
      )

  -- The verdict reads no more of the number of clusters than these two.
  floored_same :
      (n m m' covered : ℕ) (smart exchange : W) (checkable : Bool) (bought floor : W)
      → (m ≡ 1) ↔ (m' ≡ 1)
      → (m < n) ↔ (m' < n)
      → decide_with_floor n m covered smart exchange checkable bought floor
        ≡ decide_with_floor n m' covered smart exchange checkable bought floor
  unfolding decide_with_floor decide_verdict
  floored_same n m m' covered smart exchange checkable bought floor one fewer =
      let is_one : (m == 1) ≡ (m' == 1) = ground (arith, one) in
      let is_less : ltb m n ≡ ltb m' n = ground (arith, fewer) in rw (is_one, is_less) refl

  m_same :
      (order order' : MapOrder) (buyers : List (BuyerInput W))
      → Distinct (addresses buyers)
      → (((cluster order buyers).m ≡ 1) ↔ ((cluster order' buyers).m ≡ 1))
        × (((cluster order buyers).m < length buyers) ↔ ((cluster order' buyers).m < length buyers))
  m_same order order' buyers ds =
      let le = cluster-m-le order buyers in
      let le' = cluster-m-le order' buyers in
      let apart = all_apart_iff order buyers ds in
      let apart' = all_apart_iff order' buyers ds in
      (
        elim (Bool-cases (ltb 0 (length buyers))) [
          | inl some_buyer ↦
              let source = one_source_iff order buyers ds (ground (arith, some_buyer)) in
              let source' = one_source_iff order' buyers ds (ground (arith, some_buyer)) in
              (λ e. source'.1 (source.0 e), λ e. source.1 (source'.0 e))
          | inr none_at_all ↦ (
            λ e. absurd (ground (arith, none_at_all, e, le)),
            λ e. absurd (ground (arith, none_at_all, e, le')),
          )
        ],
        (
          λ lt. not_less le' (λ e. omega (arith, apart.1 (apart'.0 e), lt)),
          λ lt. not_less le (λ e. omega (arith, apart'.1 (apart.0 e), lt)),
        ),
      )

  -- For buyers with different addresses, and with the flows and the sum of what they bought given, the
  -- verdict does not depend on the order in which Cluster walks its maps. How Run comes to the sum is
  -- not part of it.
  pub judge_order :
      (order order' : MapOrder) (buyers : List (BuyerInput W)) (smart exchange : W)
      (checkable : Bool) (bought floor : W)
      → Distinct (addresses buyers)
      → judge order buyers smart exchange checkable bought floor
        ≡ judge order' buyers smart exchange checkable bought floor
  judge_order order order' buyers smart exchange checkable bought floor ds =
      let (one, fewer) = m_same order order' buyers ds in
      rw
        (
          cluster-n order buyers,
          cluster-n order' buyers,
          cluster-covered order buyers,
          cluster-covered order' buyers,
        )
        (floored_same (length buyers) (cluster order buyers).m (cluster order' buyers).m
          (count_covered buyers) smart exchange checkable bought floor one fewer)
