-- ===== src/Score/Cluster/Counts.antt =====
-- How many groups there are, from the representatives alone.
use smart_money_falsifier.Base.{
  ℕ, ◌≤◌, ◌<◌, ◌≡◌, ◌≢◌, ◌↔◌, refl, sym, ap, subst, ◌∙◌, some, List, [], ◌∷◌, Memᴰ, All, ◌==◌,
  ==_iff, length, length-append, length-perm, select, mem-select, select-mem, select-Distinct,
  two-le-length, Dict, nat_eq, keys, lookup, lookup_or, lookup_or-mem, mem-lookup, Distinct, arith,
}
use smart_money_falsifier.Score.UnionFind.{identity}
use smart_money_falsifier.Score.UnionFind.Joined.{
  identity-lt, identity-mem, identity-Distinct, length-identity,
}
use smart_money_falsifier.Score.Cluster.Groups.{Grouped, spread}

-- Groups are not empty, so there are at most as many as buyers.
length-le-spread :
    (groups : Dict ℕ (List ℕ))
    → All (λ e. 0 < length e.1) groups
    → length groups ≤ length (spread groups)
length-le-spread [] h = omega arith
length-le-spread ((r, l) ∷ groups) h =
    omega (arith, length-append l (spread groups), length-le-spread groups h.1)

length-lt-spread :
    (groups : Dict ℕ (List ℕ)) (r : ℕ) (l : List ℕ)
    → All (λ e. 0 < length e.1) groups
    → Memᴰ {A = ℕ × List ℕ} (r, l) groups
    → 2 ≤ length l
    → length groups < length (spread groups)
length-lt-spread [] r l h m two = elim m [ ]
length-lt-spread ((s, k) ∷ groups) r l h (Memᴰ.head e) two =
    let size : length l ≡ length k = ap (λ (p : ℕ × List ℕ). length p.1) e in
    omega (arith, length-append k (spread groups), length-le-spread groups h.1)
length-lt-spread ((s, k) ∷ groups) r l h (Memᴰ.tail m) two =
    omega (arith, length-append k (spread groups), length-lt-spread groups r l h.1 m two)

-- With fewer groups than buyers, one group has two.
crowded :
    (groups : Dict ℕ (List ℕ))
    → length groups < length (spread groups)
    → (r : ℕ) × (x : ℕ) × (y : ℕ) × (l : List ℕ) × Memᴰ {A = ℕ × List ℕ} (r, x ∷ y ∷ l) groups
crowded [] lt = absurd (omega arith)
crowded ((r, []) ∷ groups) lt =
    let (s, x, y, l, m) = crowded groups (omega arith) in (s, x, y, l, Memᴰ.tail m)
crowded ((r, x ∷ []) ∷ groups) lt =
    let (s, x', y, l, m) = crowded groups (omega arith) in (s, x', y, l, Memᴰ.tail m)
crowded ((r, x ∷ y ∷ l) ∷ groups) lt = (r, x, y, l, Memᴰ.head refl)

module _ (n : ℕ) {rep : ℕ → ℕ} {groups : Dict ℕ (List ℕ)}
    (g : Grouped rep (identity n) groups) where
  pub length-spread : length (spread groups) ≡ n
  length-spread = length-perm g.whole ∙ length-identity n

  -- A group holds the buyers whose representative is its key.
  entry_members :
      (r : ℕ) (l : List ℕ)
      → Memᴰ {A = ℕ × List ℕ} (r, l) groups
      → l ≡ select (λ i. rep i == r) (identity n)
  entry_members r l m = found (mem-lookup r l groups g.distinct m) ∙ g.members r
    where
      found : lookup r groups ≡ some l → l ≡ lookup_or r [] groups
      found e = rw (e, lookup_or)

  pub member_iff :
      (r x : ℕ) (l : List ℕ)
      → Memᴰ {A = ℕ × List ℕ} (r, l) groups
      → Memᴰ x l ↔ ((x < n) × (rep x ≡ r))
  member_iff r x l m = (
    λ k.
        let (mi, t) =
          mem-select (λ i. rep i == r) (identity n) (subst (Memᴰ x) (entry_members r l m) k) in
        (identity-lt n x mi, (==_iff (rep x) r).0 t),
    λ (lt, e).
        subst (Memᴰ x) (sym (entry_members r l m)) (
          select-mem (λ i. rep i == r) (identity n) (identity-mem n x lt) ((==_iff (rep x) r).1 e)),
  )

  -- Each buyer stands in the group of its representative.
  pub grouped_at :
      (x : ℕ) → x < n → (l : List ℕ) × Memᴰ {A = ℕ × List ℕ} (rep x, l) groups × Memᴰ x l
  grouped_at x lt =
      let inside : Memᴰ x (lookup_or (rep x) [] groups) = subst (Memᴰ x) (sym (g.members (rep x))) (
        select-mem (λ i. rep i == rep x) (identity n) (identity-mem n x lt)
          ((==_iff (rep x) (rep x)).1 refl)) in
      let (l, m, e) = lookup_or-mem (rep x) groups x inside in (l, m, subst (Memᴰ x) e inside)

  pub length-groups-le : length groups ≤ n
  length-groups-le = omega (arith, length-le-spread groups g.filled, length-spread)

  -- Fewer groups than buyers: two buyers have one representative.
  pub fewer→same :
      length groups < n → (x : ℕ) × (y : ℕ) × (x < n) × (y < n) × (x ≢ y) × (rep x ≡ rep y)
  fewer→same lt =
      let (r, x, y, l, m) = crowded groups (omega (arith, length-spread)) in
      let (lx, ex) = (member_iff r x (x ∷ y ∷ l) m).0 (Memᴰ.head refl) in
      let (ly, ey) = (member_iff r y (x ∷ y ∷ l) m).0 (Memᴰ.tail (Memᴰ.head refl)) in
      let apart =
        subst Distinct (sym (entry_members r (x ∷ y ∷ l) m))
          (select-Distinct (λ i. rep i == r) (identity n) (identity-Distinct n)) in
      (x, y, lx, ly, (λ e. apart.0 (Memᴰ.head e)), ex ∙ sym ey)

  pub same→fewer : (x y : ℕ) → x < n → y < n → x ≢ y → rep x ≡ rep y → length groups < n
  same→fewer x y lx ly ne e =
      let (l, m, mx) = grouped_at x lx in
      let my = (member_iff (rep x) y l m).1 (ly, sym e) in
      omega (
        arith,
        length-lt-spread groups (rep x) l g.filled m (two-le-length l mx my ne),
        length-spread,
      )

  -- One group: all buyers have one representative.
  pub single→same : length groups ≡ 1 → (x y : ℕ) → x < n → y < n → rep x ≡ rep y
  single→same e x y lx ly =
      let (lx', mx, _) = grouped_at x lx in
      let (ly', my, _) = grouped_at y ly in only groups e mx my
    where
      only :
          (d : Dict ℕ (List ℕ)) {r s : ℕ} {l k : List ℕ}
          → length d ≡ 1
          → Memᴰ {A = ℕ × List ℕ} (r, l) d
          → Memᴰ {A = ℕ × List ℕ} (s, k) d
          → r ≡ s
      only [] h m k = elim m [ ]
      only (e ∷ []) h (Memᴰ.head p) (Memᴰ.head q) = ap (λ (z : ℕ × List ℕ). z.0) (p ∙ sym q)
      only (e ∷ []) h (Memᴰ.head p) (Memᴰ.tail k) = elim k [ ]
      only (e ∷ []) h (Memᴰ.tail m) k = elim m [ ]
      only (e ∷ f ∷ d) h m k = absurd (omega arith)

  pub same→single : 0 < n → ((x y : ℕ) → x < n → y < n → rep x ≡ rep y) → length groups ≡ 1
  same→single pos same = one groups g.filled g.distinct length-spread (λ e m. m)
    where
      one :
          (d : Dict ℕ (List ℕ))
          → All (λ e. 0 < length e.1) d
          → Distinct (keys d)
          → length (spread d) ≡ n
          → ((e : ℕ × List ℕ) → Memᴰ e d → Memᴰ e groups)
          → length d ≡ 1
      one [] f k size within = absurd (omega arith)
      one (e ∷ []) f k size within = refl
      one ((r, []) ∷ d) f k size within = absurd (omega arith)
      one (e ∷ (s, []) ∷ d) f k size within = absurd (omega arith)
      one ((r, x ∷ l) ∷ (s, y ∷ m) ∷ d) f k size within =
          let (lx, ex) =
            (member_iff r x (x ∷ l) (within (r, x ∷ l) (Memᴰ.head refl))).0 (Memᴰ.head refl) in
          let (ly, ey) =
            (member_iff s y (y ∷ m) (within (s, y ∷ m) (Memᴰ.tail (Memᴰ.head refl)))).0
              (Memᴰ.head refl) in
          absurd (k.0 (Memᴰ.head (sym ex ∙ same x y lx ly ∙ ey)))
