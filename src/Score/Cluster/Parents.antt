-- ===== src/Score/Cluster/Parents.antt =====
-- The two loops of unions in Cluster compute the components of `Linked`, in whatever order Go walks
-- the map of owners.
use mathlib.Core.List.Memᴰ
use mathlib.Core.List.Permᴰ
use smart_money_falsifier.Base.{
  ℕ, ◌<◌, ◌≡◌, refl, sym, ap, subst, ◌∙◌, inl, inr, Bool, true, false, Option, none, some, List, [],
  ◌∷◌, ◌++◌, map, Memᴰ, Memᴰ-perm, All, All-mem, All-intro, ==_iff, if◌then◌else◌, Bool-cases,
  Option-cases, ◌==◌, length, fold, fold-append, enumerate, Str, str_key, Dict, lookup,
  lookup_or-mem, lookup-mem, Distinct, MapOrder,
}
use smart_money_falsifier.Float.{Float64}
use smart_money_falsifier.Score.UnionFind.{union, identity}
use smart_money_falsifier.Score.UnionFind.Joined.{
  Joined, link, back, through, here, Joined-map, Joined-eq, Pairs, Tracks, union_all,
  union_all-Tracks, identity-Tracks, IsWithin,
}
use smart_money_falsifier.Score.Cluster.{
  BuyerInput, Funder, buyer, funder_owners, index_buyers, union_shared, union_funder, parents,
}
use smart_money_falsifier.Score.Cluster.Links.{Linked, share, funds, addresses, Linked-lt}
use smart_money_falsifier.Score.Cluster.Owners.{
  IsOwner, enumerated, enumerate_buyer, funder_owners-AreOwners, claim-owned,
  index_buyers-AreIndexes, lookup-index_buyers,
}

-- The pairs that the loops hand to `union`, in order.
abbrev star : List ℕ → List (ℕ × ℕ)
star [] = []
star (first ∷ rest) = map (λ k. (first, k)) rest

abbrev shared_pairs : List (Str × List ℕ) → List (ℕ × ℕ)
shared_pairs [] = []
shared_pairs (e ∷ es) = star e.1 ++ shared_pairs es

abbrev pair_to : ℕ → Option ℕ → List (ℕ × ℕ)
pair_to i none = []
pair_to i (some j) = if j == i then [] else (i, j) ∷ []

abbrev funder_pairs : Dict Str ℕ → ℕ → List Funder → List (ℕ × ℕ)
funder_pairs idx i [] = []
funder_pairs idx i (g ∷ gs) = pair_to i (lookup g.address idx) ++ funder_pairs idx i gs

abbrev buyer_pairs : {W : Type 0} → Dict Str ℕ → List (ℕ × BuyerInput W) → List (ℕ × ℕ)
buyer_pairs idx [] = []
buyer_pairs idx ((i, b) ∷ rest) = funder_pairs idx i b.funders ++ buyer_pairs idx rest

fold-map_pair :
    (first : ℕ) (p : List ℕ) (rest : List ℕ)
    → fold (λ q k. union q first k) p rest ≡ union_all p (map (λ k. (first, k)) rest)
fold-map_pair first p [] = refl
fold-map_pair first p (k ∷ rest) = fold-map_pair first (union p first k) rest

union_shared-eq :
    (p : List ℕ) (es : List (Str × List ℕ)) → union_shared p es ≡ union_all p (shared_pairs es)
unfolding union_shared
union_shared-eq p [] = refl
union_shared-eq p ((a, []) ∷ es) = union_shared-eq p es
union_shared-eq p ((a, first ∷ rest) ∷ es) =
    union_shared-eq (fold (λ q k. union q first k) p rest) es
    ∙ ap (λ q. union_all q (shared_pairs es)) (fold-map_pair first p rest)
    ∙ sym (fold-append (λ q e. union q e.0 e.1) p (star (first ∷ rest)) (shared_pairs es))

union_funders-eq :
    (idx : Dict Str ℕ) (i : ℕ) (p : List ℕ) (gs : List Funder)
    → fold (union_funder idx i) p gs ≡ union_all p (funder_pairs idx i gs)
unfolding union_funder
union_funders-eq idx i p [] = refl
union_funders-eq idx i p (g ∷ gs) = elim (Option-cases (lookup g.address idx)) [
  | inl e ↦ rw (e, union_funder) (union_funders-eq idx i p gs)
  | inr (j, e) ↦ elim (Bool-cases (j == i)) [
    | inl t ↦ rw (e, union_funder, t) (union_funders-eq idx i p gs)
    | inr t ↦ rw (e, union_funder, t) (union_funders-eq idx i (union p i j) gs)
  ]
]

module _ {W : Type 0} where
  union_buyers-eq :
      (idx : Dict Str ℕ) (p : List ℕ) (ibs : List (ℕ × BuyerInput W))
      → fold (λ p ib. fold (union_funder idx ib.0) p ib.1.funders) p ibs
        ≡ union_all p (buyer_pairs idx ibs)
  union_buyers-eq idx p [] = refl
  union_buyers-eq idx p ((i, b) ∷ ibs) =
      union_buyers-eq idx (fold (union_funder idx i) p b.funders) ibs
      ∙ ap (λ q. union_all q (buyer_pairs idx ibs)) (union_funders-eq idx i p b.funders)
      ∙ sym (
          fold-append (λ q e. union q e.0 e.1) p (funder_pairs idx i b.funders)
            (buyer_pairs idx ibs))

-- Where a pair comes from.
mem-star : (owners : List ℕ) (x y : ℕ) → Memᴰ (x, y) (star owners) → Memᴰ x owners × Memᴰ y owners
mem-star [] x y m = elim m [ ]
mem-star (first ∷ rest) x y m =
    let (k, mk, e) = Memᴰ.of_map (λ k. (first, k)) rest m in
    (Memᴰ.head (sym (ap (λ p. p.0) e)), Memᴰ.tail (subst (λ z. Memᴰ z rest) (ap (λ p. p.1) e) mk))

mem-shared_pairs :
    (es : List (Str × List ℕ)) (x y : ℕ)
    → Memᴰ (x, y) (shared_pairs es)
    → (a : Str) × (owners : List ℕ) × Memᴰ (a, owners) es × Memᴰ x owners × Memᴰ y owners
mem-shared_pairs [] x y m = elim m [ ]
mem-shared_pairs ((a, owners) ∷ es) x y m = elim (Memᴰ.append_cases (star owners) m) [
  | inl k ↦ let (mx, my) = mem-star owners x y k in (a, owners, Memᴰ.head refl, mx, my)
  | inr k ↦ let (b, os, me, mx, my) = mem-shared_pairs es x y k in (b, os, Memᴰ.tail me, mx, my)
]

mem_unless :
    {i j x y : ℕ} (b : Bool)
    → Memᴰ {A = ℕ × ℕ} (x, y) (if b then [] else (i, j) ∷ [])
    → (x ≡ i) × (y ≡ j)
mem_unless true k = elim k [ ]
mem_unless false k = let e = Memᴰ.eq_of_singleton k in (ap (λ p. p.0) e, ap (λ p. p.1) e)

mem-funder_pairs :
    (idx : Dict Str ℕ) (i : ℕ) (gs : List Funder) (x y : ℕ)
    → Memᴰ (x, y) (funder_pairs idx i gs)
    → (g : Funder) × Memᴰ g gs × (x ≡ i) × (lookup g.address idx ≡ some y)
mem-funder_pairs idx i [] x y m = elim m [ ]
mem-funder_pairs idx i (g ∷ gs) x y m =
    elim (Memᴰ.append_cases (pair_to i (lookup g.address idx)) m) [
      | inl k ↦ let (ex, el) = found (lookup g.address idx) k in (g, Memᴰ.head refl, ex, el)
      | inr k ↦ let (g', mg, ex, el) = mem-funder_pairs idx i gs x y k in (g', Memᴰ.tail mg, ex, el)
    ]
  where
    found : (o : Option ℕ) → Memᴰ (x, y) (pair_to i o) → (x ≡ i) × (o ≡ some y)
    found none k = elim k [ ]
    found (some j) k = let (ex, ey) = mem_unless (j == i) k in (ex, ap some (sym ey))

-- Which pairs there are.
star-Joined : (l : List ℕ) (x y : ℕ) → Memᴰ x l → Memᴰ y l → Joined (Pairs (star l)) x y
star-Joined [] x y mx my = elim mx [ ]
star-Joined (first ∷ rest) x y mx my = through (back (from_first x mx)) (from_first y my)
  where
    from_first : (z : ℕ) → Memᴰ z (first ∷ rest) → Joined (Pairs (star (first ∷ rest))) first z
    from_first z (Memᴰ.head e) = subst (Joined (Pairs (star (first ∷ rest))) first) (sym e) here
    from_first z (Memᴰ.tail m) = link (Memᴰ.map (λ k. (first, k)) m)

star-shared_pairs :
    (es : List (Str × List ℕ)) (a : Str) (l : List ℕ) (p : ℕ × ℕ)
    → Memᴰ {A = Str × List ℕ} (a, l) es
    → Memᴰ p (star l)
    → Memᴰ p (shared_pairs es)
star-shared_pairs [] a l p me m = elim me [ ]
star-shared_pairs (e ∷ es) a l p (Memᴰ.head q) m =
    Memᴰ.append_left (shared_pairs es) (subst (λ (o : List ℕ). Memᴰ p (star o)) (ap (λ e. e.1) q) m)
star-shared_pairs (e ∷ es) a l p (Memᴰ.tail me) m =
    Memᴰ.append_right (star e.1) (star-shared_pairs es a l p me m)

funder_pairs-mem :
    (idx : Dict Str ℕ) (x y : ℕ) (gs : List Funder) (g : Funder)
    → Memᴰ g gs
    → lookup g.address idx ≡ some y
    → (y == x) ≡ false
    → Memᴰ {A = ℕ × ℕ} (x, y) (funder_pairs idx x gs)
funder_pairs-mem idx x y [] g m e ne = elim m [ ]
funder_pairs-mem idx x y (h ∷ gs) g (Memᴰ.head q) e ne =
    let eh : lookup h.address idx ≡ some y = rw (← q) e in
    Memᴰ.append_left (funder_pairs idx x gs) (rw (eh, pair_to, ne) (Memᴰ.head refl))
funder_pairs-mem idx x y (h ∷ gs) g (Memᴰ.tail m) e ne =
    Memᴰ.append_right (pair_to x (lookup h.address idx)) (funder_pairs-mem idx x y gs g m e ne)

buyer_pairs-mem :
    {W : Type 0} (idx : Dict Str ℕ) (i : ℕ) (b : BuyerInput W) (ibs : List (ℕ × BuyerInput W))
    (p : ℕ × ℕ)
    → Memᴰ {A = ℕ × BuyerInput W} (i, b) ibs
    → Memᴰ p (funder_pairs idx i b.funders)
    → Memᴰ p (buyer_pairs idx ibs)
buyer_pairs-mem idx i b [] p mi m = elim mi [ ]
buyer_pairs-mem {W} idx i b ((j, c) ∷ ibs) p (Memᴰ.head q) m =
    Memᴰ.append_left (buyer_pairs idx ibs)
      (subst (λ (ib : ℕ × BuyerInput W). Memᴰ p (funder_pairs idx ib.0 ib.1.funders)) q m)
buyer_pairs-mem idx i b ((j, c) ∷ ibs) p (Memᴰ.tail mi) m =
    Memᴰ.append_right (funder_pairs idx j c.funders) (buyer_pairs-mem idx i b ibs p mi m)

-- The pairs join what is linked.
module _ {W : Type 0} ⦃f : Float64 W⦄ (order : MapOrder) (buyers : List (BuyerInput W)) where
  abbrev ranged : List (Str × List ℕ)
  ranged = order.shuffle (Str × List ℕ) 0 (funder_owners buyers)

  abbrev pairs : List (ℕ × ℕ)
  pairs = shared_pairs ranged ++ buyer_pairs (index_buyers buyers) (enumerate buyers)

  parents-eq : parents order buyers ≡ union_all (identity (length buyers)) pairs
  unfolding parents
  parents-eq =
      union_buyers-eq (index_buyers buyers) (union_shared (identity (length buyers)) ranged)
        (enumerate buyers)
      ∙ ap (λ q. union_all q (buyer_pairs (index_buyers buyers) (enumerate buyers)))
          (union_shared-eq (identity (length buyers)) ranged)
      ∙ sym (
          fold-append (λ q e. union q e.0 e.1) (identity (length buyers)) (shared_pairs ranged)
            (buyer_pairs (index_buyers buyers) (enumerate buyers)))

  mem-buyer_pairs :
      (ibs : List (ℕ × BuyerInput W)) (x y : ℕ)
      → ((i : ℕ) (b : BuyerInput W) → Memᴰ (i, b) ibs → Memᴰ (i, b) (enumerate buyers))
      → Memᴰ (x, y) (buyer_pairs (index_buyers buyers) ibs)
      → Linked buyers x y
  mem-buyer_pairs [] x y within m = elim m [ ]
  mem-buyer_pairs ((i, b) ∷ ibs) x y within m =
      elim (Memᴰ.append_cases (funder_pairs (index_buyers buyers) i b.funders) m) [
        | inl k ↦
            let (g, mg, ex, el) = mem-funder_pairs (index_buyers buyers) i b.funders x y k in
            let (lt, eb) = enumerated buyers i b (within i b (Memᴰ.head refl)) in
            let (ly, ey) =
              All-mem (λ (e : Str × ℕ). (e.1 < length buyers) × ((buyer buyers e.1).address ≡ e.0))
                (index_buyers buyers) (index_buyers-AreIndexes buyers)
                (lookup-mem g.address (index_buyers buyers) el) in
            rw ex (funds lt ly (rw (ey, eb) (Memᴰ.map (λ (h : Funder). h.address) mg)))
        | inr k ↦ mem-buyer_pairs ibs x y (λ j c q. within j c (Memᴰ.tail q)) k
      ]

  mem-pairs : (x y : ℕ) → Memᴰ (x, y) pairs → Linked buyers x y
  mem-pairs x y m = elim (Memᴰ.append_cases (shared_pairs ranged) m) [
    | inl k ↦
        let (a, owners, me, mx, my) = mem-shared_pairs ranged x y k in
        let all =
          All-mem (λ (e : Str × List ℕ). All (IsOwner buyers e.0) e.1) (funder_owners buyers)
            (funder_owners-AreOwners buyers)
            (Memᴰ-perm (order.shuffle_perm (Str × List ℕ) 0 (funder_owners buyers)) me) in
        let cx = All-mem (IsOwner buyers a) owners all mx in
        let cy = All-mem (IsOwner buyers a) owners all my in share a cx.0 cy.0 cx.1 cy.1
    | inr k ↦ mem-buyer_pairs (enumerate buyers) x y (λ i b q. q) k
  ]

  pairs-IsWithin : IsWithin (length buyers) pairs
  pairs-IsWithin = All-intro pairs (λ e m. Linked-lt buyers (mem-pairs e.0 e.1 m))

  Linked-Joined :
      (x y : ℕ) → Distinct (addresses buyers) → Linked buyers x y → Joined (Pairs pairs) x y
  Linked-Joined x y ds (share a lx ly cx cy) =
      let (l, me, el) = lookup_or-mem a (funder_owners buyers) x (claim-owned buyers x a lx cx) in
      let mr =
        Memᴰ-perm (Permᴰ.symm (order.shuffle_perm (Str × List ℕ) 0 (funder_owners buyers))) me in
      Joined-map
        (λ u v m. link (
          Memᴰ.append_left (buyer_pairs (index_buyers buyers) (enumerate buyers))
            (star-shared_pairs ranged a l (u, v) mr m)))
        (star-Joined l x y (subst (Memᴰ x) el (claim-owned buyers x a lx cx))
          (subst (Memᴰ y) el (claim-owned buyers y a ly cy)))
  Linked-Joined x y ds (funds lx ly c) =
      let (g, mg, eg) = Memᴰ.of_map (λ (h : Funder). h.address) (buyer buyers x).funders c in
      let found : lookup g.address (index_buyers buyers) ≡ some y =
        rw eg (lookup-index_buyers buyers y ds ly) in
      elim (Bool-cases (y == x)) [
        | inl t ↦ subst (Joined (Pairs pairs) x) (sym ((==_iff y x).0 t)) here
        | inr t ↦ link (
            Memᴰ.append_right (shared_pairs ranged) (
              buyer_pairs-mem (index_buyers buyers) x (buyer buyers x) (enumerate buyers) (x, y)
                (enumerate_buyer buyers x lx)
                (funder_pairs-mem (index_buyers buyers) x y (buyer buyers x).funders g mg found t)))
      ]

  -- The slice `parent` after both loops.
  pub parents-Tracks : Tracks (length buyers) pairs (parents order buyers)
  parents-Tracks = rw parents-eq (
      union_all-Tracks (identity (length buyers)) [] pairs (identity-Tracks (length buyers))
        pairs-IsWithin)

  -- Who is whose representative, from the funders that the buyers name.
  abbrev pub component : ℕ → ℕ
  component = parents-Tracks.rep

  pub component→Joined :
      (x y : ℕ)
      → x < length buyers
      → y < length buyers
      → component x ≡ component y
      → Joined (Linked buyers) x y
  component→Joined x y lx ly e =
      Joined-map (λ u v m. link (mem-pairs u v m)) (parents-Tracks.sound x y lx ly e)

  pub Joined→component :
      (x y : ℕ)
      → Distinct (addresses buyers)
      → x < length buyers
      → y < length buyers
      → Joined (Linked buyers) x y
      → component x ≡ component y
  Joined→component x y ds lx ly j =
      Joined-eq component
        (λ u v r.
          Joined-eq component
            (λ a b m.
              All-mem (λ (e : ℕ × ℕ). component e.0 ≡ component e.1) pairs parents-Tracks.complete
                m)
            (Linked-Joined u v ds r))
        j
