-- ===== src/Score/Cluster/Result.antt =====
-- What Cluster returns: its counts against the links between the buyers.
use smart_money_falsifier.Base.{
  ℕ, ◌≤◌, ◌<◌, ◌≡◌, ◌≢◌, ◌↔◌, refl, sym, ◌∙◌, inl, inr, List, [], ◌∷◌, length, length-perm,
  length-map, Bool-cases, ◌==◌, ==_iff, Distinct, MapOrder, sort_by-perm, arith,
}
use smart_money_falsifier.Float.{Float64}
use smart_money_falsifier.Score.UnionFind.{identity}
use smart_money_falsifier.Score.UnionFind.Joined.{Joined, link, Joined-cases}
use smart_money_falsifier.Score.Cluster.{
  BuyerInput, parents, group_all, make_group, group_less, cluster, count_covered,
}
use smart_money_falsifier.Score.Cluster.Links.{Linked, Linked-lt, addresses}
use smart_money_falsifier.Score.Cluster.Parents.{
  parents-Tracks, component, component→Joined, Joined→component,
}
use smart_money_falsifier.Score.Cluster.Groups.{Grouped, group_all-Grouped}
use smart_money_falsifier.Score.Cluster.Counts.{
  length-groups-le, fewer→same, same→fewer, single→same, same→single,
}

module _ {W : Type 0} ⦃f : Float64 W⦄ (order : MapOrder) (buyers : List (BuyerInput W)) where
  -- The map `groups`.
  abbrev pub groups : List (ℕ × List ℕ)
  groups = group_all (parents order buyers) (length buyers)

  pub groups-Grouped : Grouped (component order buyers) (identity (length buyers)) groups
  groups-Grouped = group_all-Grouped (parents order buyers) (parents-Tracks order buyers).forest

module _ {W : Type 0} ⦃f : Float64 W⦄ (order : MapOrder) where
  pub cluster-n : (buyers : List (BuyerInput W)) → (cluster order buyers).n ≡ length buyers
  unfolding cluster
  cluster-n [] = refl
  cluster-n (b ∷ bs) = refl

  pub cluster-covered :
      (buyers : List (BuyerInput W)) → (cluster order buyers).covered ≡ count_covered buyers
  unfolding cluster count_covered
  cluster-covered [] = refl
  cluster-covered (b ∷ bs) = refl

  pub cluster-m :
      (buyers : List (BuyerInput W)) → (cluster order buyers).m ≡ length (groups order buyers)
  unfolding cluster group_all
  cluster-m [] = refl
  cluster-m (b ∷ bs) =
      length-perm (sort_by-perm group_less _)
      ∙ length-map (make_group order (b ∷ bs)) _
      ∙ length-perm (order.shuffle_perm (ℕ × List ℕ) 1 (groups order (b ∷ bs)))

-- Equality of numbers is stable.
not-ne : (x y : ℕ) → ¬ (x ≢ y) → x ≡ y
not-ne x y h = elim (Bool-cases (x == y)) [
  | inl t ↦ (==_iff x y).0 t
  | inr t ↦ absurd (h (ground arith))
]

module _ {W : Type 0} ⦃f : Float64 W⦄ (order : MapOrder) (buyers : List (BuyerInput W)) where
  -- `M` is at most `N`.
  pub cluster-m-le : (cluster order buyers).m ≤ length buyers
  cluster-m-le = omega (
    arith,
    cluster-m order buyers,
    length-groups-le (length buyers) (groups-Grouped order buyers),
  )

  -- Where M < N, two different buyers are linked, also where addresses repeat.
  pub fewer→Linked :
      (cluster order buyers).m < length buyers → (i : ℕ) × (j : ℕ) × Linked buyers i j × (i ≢ j)
  fewer→Linked lt =
      let (x, y, lx, ly, ne, e) =
        fewer→same (length buyers) (groups-Grouped order buyers)
          (omega (arith, cluster-m order buyers)) in
      elim (Joined-cases (component→Joined order buyers x y lx ly e)) [
        | inl same ↦ absurd (ne same)
        | inr p ↦ p
      ]

  -- For buyers with different addresses: M = N exactly when no two different buyers are linked.
  pub all_apart_iff :
      Distinct (addresses buyers)
      → ((cluster order buyers).m ≡ length buyers) ↔ ((i j : ℕ) → Linked buyers i j → i ≡ j)
  all_apart_iff ds = (
    λ e i j r. not-ne i j (λ ne.
        let (li, lj) = Linked-lt buyers r in
        omega (
          arith,
          cluster-m order buyers,
          same→fewer (length buyers) (groups-Grouped order buyers) i j li lj ne
              (Joined→component order buyers i j ds li lj (link r)),
        )),
    λ apart. not-ne _ _ (λ ne.
        let (i, j, r, apart_ij) = fewer→Linked (omega (arith, cluster-m-le)) in
        apart_ij (apart i j r)),
  )

  -- For at least one buyer and different addresses: M = 1 exactly when the links join all buyers.
  pub one_source_iff :
      Distinct (addresses buyers)
      → 0 < length buyers
      → ((cluster order buyers).m ≡ 1)
        ↔ ((i j : ℕ) → i < length buyers → j < length buyers → Joined (Linked buyers) i j)
  one_source_iff ds pos = (
    λ e i j li lj. component→Joined order buyers i j li lj (
        single→same (length buyers) (groups-Grouped order buyers) (sym (cluster-m order buyers) ∙ e)
          i j li lj),
    λ all.
        cluster-m order buyers
        ∙ same→single (length buyers) (groups-Grouped order buyers) pos
            (λ i j li lj. Joined→component order buyers i j ds li lj (all i j li lj)),
  )
