-- ===== src/Score/Cluster/Groups.antt =====
-- The map `groups` of Cluster: each representative with the buyers that it stands for.
use mathlib.Core.List.{append_assoc, append-nil}
use mathlib.Core.List.Permᴰ
use smart_money_falsifier.Base.{
  ℕ, ◌<◌, ◌≡◌, refl, sym, ap, subst, ◌∙◌, inl, inr, List, [], ◌∷◌, ◌++◌, Permᴰ, All, All-intro,
  Bool-cases, ◌==◌, ==_iff, length, length-append, select, select-append, fold, Dict, nat_eq, keys,
  lookup_or, insert, lookup_or-insert, lookup_or-nil, lookup_or-cons, All-insert, insert-Distinct,
  Distinct, arith,
}
use smart_money_falsifier.Score.UnionFind.{find, identity}
use smart_money_falsifier.Score.UnionFind.Forest.{Forest, find-Forest}
use smart_money_falsifier.Score.UnionFind.Union.{depth_lt}
use smart_money_falsifier.Score.UnionFind.Joined.{identity-lt}
use smart_money_falsifier.Score.Cluster.{group_one, group_all}

-- All the buyers that stand in some group.
abbrev pub spread : Dict ℕ (List ℕ) → List ℕ
spread [] = []
spread ((r, members) ∷ groups) = members ++ spread groups

-- `groups` once the indices `done` have been met.
pub record Grouped (rep : ℕ → ℕ) (done : List ℕ) (groups : Dict ℕ (List ℕ)) : Type 0 where
  pub members : (r : ℕ) → lookup_or r [] groups ≡ select (λ i. rep i == r) done
  pub filled : All (λ e. 0 < length e.1) groups
  pub distinct : Distinct (keys groups)
  pub whole : Permᴰ (spread groups) done

spread-insert :
    (r i : ℕ) (members : List ℕ) (groups : Dict ℕ (List ℕ))
    → lookup_or r [] groups ≡ members
    → Permᴰ (spread (insert r (members ++ i ∷ []) groups)) (i ∷ spread groups)
unfolding insert
spread-insert r i members [] e =
    subst (λ v. Permᴰ ((v ++ i ∷ []) ++ []) (i ∷ [])) (sym (lookup_or-nil r []) ∙ e) (Permᴰ.refl _)
spread-insert r i members ((j, w) ∷ groups) e = elim (Bool-cases (j == r)) [
  | inl t ↦
      let same : w ≡ members = ground (arith, lookup_or-cons r j w [] groups) in
      rw (t, ← same, append_assoc) (Permᴰ.middle i w (spread groups))
  | inr t ↦
      let rest : lookup_or r [] groups ≡ members = ground (arith, lookup_or-cons r j w [] groups) in
      rw t (
        Permᴰ.trans (Permᴰ.append_left w (spread-insert r i members groups rest))
          (Permᴰ.middle i w (spread groups)))
]

put-Grouped :
    (rep : ℕ → ℕ) (done : List ℕ) (groups : Dict ℕ (List ℕ)) (i : ℕ)
    → Grouped rep done groups
    → Grouped rep (done ++ i ∷ []) (insert (rep i) (lookup_or (rep i) [] groups ++ i ∷ []) groups)
put-Grouped rep done groups i g = record {
  members = λ r. elim (Bool-cases (rep i == r)) [
    | inl t ↦
        rw (lookup_or-insert, t, select-append, t)
          (ap (λ l. l ++ i ∷ [])
            (subst (λ k. lookup_or (rep i) [] groups ≡ select (λ j. rep j == k) done)
              ((==_iff (rep i) r).0 t) (g.members (rep i))))
    | inr t ↦ rw (lookup_or-insert, t, select-append, t) (g.members r ∙ sym (append-nil _))
  ];
  filled =
      All-insert (λ e. 0 < length e.1) (rep i) _ groups
        (omega (arith, length-append (lookup_or (rep i) [] groups) (i ∷ []))) g.filled;
  distinct = insert-Distinct (rep i) _ groups g.distinct;
  whole =
      Permᴰ.trans (spread-insert (rep i) i (lookup_or (rep i) [] groups) groups refl)
        (Permᴰ.trans (Permᴰ.cons refl g.whole) (Permᴰ.symm (Permᴰ.append_comm done (i ∷ []))));
}

fold-Grouped :
    {n : ℕ} {rep h : ℕ → ℕ} (p : List ℕ) (groups : Dict ℕ (List ℕ)) (done rest : List ℕ)
    → Forest n p rep h
    → Grouped rep done groups
    → All (λ i. i < n) rest
    → Grouped rep (done ++ rest) (fold group_one (p, groups) rest).1
unfolding group_one
fold-Grouped p groups done [] t g lt = rw append-nil g
fold-Grouped {rep = rep} p groups done (i ∷ rest) t g lt =
    let found = find-Forest (length p) p i t lt.0 (depth_lt t i lt.0) in
    let r = (find (length p) p i).1 in
    subst
      (λ l.
        Grouped rep l
          (fold group_one
            ((find (length p) p i).0, insert r (lookup_or r [] groups ++ i ∷ []) groups) rest).1)
      (append_assoc done (i ∷ []) rest)
      (fold-Grouped (find (length p) p i).0 (insert r (lookup_or r [] groups ++ i ∷ []) groups)
        (done ++ i ∷ []) rest found.0
        (subst
          (λ k. Grouped rep (done ++ i ∷ []) (insert k (lookup_or k [] groups ++ i ∷ []) groups))
          (sym found.1) (put-Grouped rep done groups i g))
        lt.1)

-- The map that Cluster builds from `parent`.
pub group_all-Grouped :
    {n : ℕ} {rep h : ℕ → ℕ} (p : List ℕ)
    → Forest n p rep h
    → Grouped rep (identity n) (group_all p n)
unfolding group_all
group_all-Grouped {n} p t =
    fold-Grouped p [] [] (identity n) t
      (record { members = λ r. lookup_or-nil r []; filled = tt; distinct = tt; whole = Permᴰ.nil })
      (All-intro (identity n) (λ i m. identity-lt n i m))
