-- ===== src/Score/Cluster/Members.antt =====
-- Who stands in which cluster of the result.
use mathlib.Core.Path.{ap₂}
use mathlib.Core.List.{map-append, append_assoc}
use mathlib.Core.List.Memᴰ
use mathlib.Core.List.Permᴰ
use smart_money_falsifier.Base.{
  ℕ, ◌+◌, ◌≡◌, refl, sym, subst, ◌∙◌, List, [], ◌∷◌, ◌++◌, map, Memᴰ, Memᴰ-perm, Permᴰ, length,
  length-append, get_or, get_or-append, MapOrder, sort_by-perm, arith,
}
use smart_money_falsifier.Float.{Float64}
use smart_money_falsifier.Score.UnionFind.{identity, range_from}
use smart_money_falsifier.Score.UnionFind.Joined.{Joined}
use smart_money_falsifier.Score.Cluster.{
  BuyerInput, ClusterGroup, buyer, zero_buyer, group_all, make_group, group_less, cluster,
  sort_members,
}
use smart_money_falsifier.Score.Cluster.Links.{Linked}
use smart_money_falsifier.Score.Cluster.Parents.{component→Joined}
use smart_money_falsifier.Score.Cluster.Groups.{spread}
use smart_money_falsifier.Score.Cluster.Counts.{member_iff}
use smart_money_falsifier.Score.Cluster.Result.{groups, groups-Grouped}

-- The members of all clusters, one after the other.
abbrev pub gathered : {W : Type 0} → List (ClusterGroup W) → List (BuyerInput W)
gathered [] = []
gathered (c ∷ cs) = c.members ++ gathered cs

swap_blocks : {A : Type 0} (xs ys zs : List A) → Permᴰ (xs ++ (ys ++ zs)) (ys ++ (xs ++ zs))
swap_blocks xs ys zs =
    rw (sym (append_assoc xs ys zs), sym (append_assoc ys xs zs))
      (Permᴰ.append_right zs (Permᴰ.append_comm xs ys))

gathered-perm :
    {W : Type 0} {cs ds : List (ClusterGroup W)} → Permᴰ cs ds → Permᴰ (gathered cs) (gathered ds)
gathered-perm Permᴰ.nil = Permᴰ.nil
gathered-perm (Permᴰ.cons {l₁ = cs} {l₂ = ds} e p) = rw e (Permᴰ.append_left _ (gathered-perm p))
gathered-perm (Permᴰ.swap {a = a} {b = b} {l = cs} e d) = rw (e, d) (swap_blocks _ _ (gathered cs))
gathered-perm (Permᴰ.trans p q) = Permᴰ.trans (gathered-perm p) (gathered-perm q)

map-range_from :
    {A : Type 0} (d : A) (start : ℕ) (front xs : List A)
    → length front ≡ start
    → map (λ i. get_or (front ++ xs) i d) (range_from start (length xs)) ≡ xs
unfolding range_from
map-range_from d start front [] e = refl
map-range_from {A} d start front (x ∷ xs) e =
    let here : get_or (front ++ x ∷ xs) start d ≡ x =
      subst (λ k. get_or (front ++ x ∷ xs) k d ≡ x) e (get_or-append front xs x d) in
    let rest =
      subst (λ (l : List A). map (λ i. get_or l i d) (range_from (start + 1) (length xs)) ≡ xs)
        (append_assoc front (x ∷ []) xs)
        (map-range_from d (start + 1) (front ++ x ∷ []) xs
          (omega (arith, length-append front (x ∷ [])))) in
    ap₂ ◌∷◌ here rest

map-identity :
    {A : Type 0} (d : A) (xs : List A) → map (λ i. get_or xs i d) (identity (length xs)) ≡ xs
unfolding identity
map-identity d xs = map-range_from d 0 [] xs refl

module _ {W : Type 0} ⦃f : Float64 W⦄ (order : MapOrder) where
  clusters-perm :
      (buyers : List (BuyerInput W))
      → Permᴰ (cluster order buyers).clusters (map (make_group order buyers) (groups order buyers))
  unfolding cluster group_all
  clusters-perm [] = Permᴰ.nil
  clusters-perm (b ∷ bs) = Permᴰ.trans (sort_by-perm group_less _) (
      Permᴰ.map (make_group order (b ∷ bs))
        (order.shuffle_perm (ℕ × List ℕ) 1 (groups order (b ∷ bs))))

module _ {W : Type 0} ⦃f : Float64 W⦄ (order : MapOrder) (buyers : List (BuyerInput W)) where
  make_group-members :
      (e : ℕ × List ℕ)
      → (make_group order buyers e).members ≡ map (buyer buyers) (sort_members buyers e.1)
  unfolding make_group
  make_group-members (r, l) = refl

  make_group-perm :
      (e : ℕ × List ℕ) → Permᴰ (make_group order buyers e).members (map (buyer buyers) e.1)
  unfolding sort_members
  make_group-perm e = rw (make_group-members e) (Permᴰ.map (buyer buyers) (sort_by-perm _ e.1))

  gathered-groups :
      (es : List (ℕ × List ℕ))
      → Permᴰ (gathered (map (make_group order buyers) es)) (map (buyer buyers) (spread es))
  gathered-groups [] = Permᴰ.nil
  gathered-groups (e ∷ es) = rw (map-append (buyer buyers) e.1 (spread es)) (
      Permᴰ.trans (Permᴰ.append_right _ (make_group-perm e))
        (Permᴰ.append_left (map (buyer buyers) e.1) (gathered-groups es)))

  -- The clusters hold each buyer exactly once.
  pub clusters-partition : Permᴰ (gathered (cluster order buyers).clusters) buyers
  clusters-partition = Permᴰ.trans (gathered-perm (clusters-perm order buyers)) (
      Permᴰ.trans (gathered-groups (groups order buyers)) (
        subst (Permᴰ (map (buyer buyers) (spread (groups order buyers))))
          (map-identity zero_buyer buyers)
          (Permᴰ.map (buyer buyers) (groups-Grouped order buyers).whole)))

  -- Two buyers of one cluster are joined by links.
  pub together→Joined :
      (c : ClusterGroup W) (a b : BuyerInput W)
      → Memᴰ c (cluster order buyers).clusters
      → Memᴰ a c.members
      → Memᴰ b c.members
      → (i : ℕ) × (j : ℕ) × (buyer buyers i ≡ a) × (buyer buyers j ≡ b) × Joined (Linked buyers) i j
  together→Joined c a b mc ma mb =
      let ((r, l), me, e) =
        Memᴰ.of_map (make_group order buyers) (groups order buyers)
          (Memᴰ-perm (clusters-perm order buyers) mc) in
      let inside = λ (x : BuyerInput W) (m : Memᴰ x c.members).
        Memᴰ.of_map (buyer buyers) l
          (Memᴰ-perm (make_group-perm (r, l)) (subst (λ g. Memᴰ x g.members) (sym e) m)) in
      let (i, mi, ei) = inside a ma in
      let (j, mj, ej) = inside b mb in
      let (li, ri) = (member_iff (length buyers) (groups-Grouped order buyers) r i l me).0 mi in
      let (lj, rj) = (member_iff (length buyers) (groups-Grouped order buyers) r j l me).0 mj in
      (i, j, ei, ej, component→Joined order buyers i j li lj (ri ∙ sym rj))
