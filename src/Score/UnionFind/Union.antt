-- ===== src/Score/UnionFind/Union.antt =====
-- `union` joins two trees and leaves the others alone.
use smart_money_falsifier.Base.{
  ℕ, zero, suc, ◌+◌, ◌<◌, ◌≡◌, ◌⊎◌, ◌∙◌, ◌≢◌, inl, inr, List, if◌then◌else◌, ◌==◌, ltb, Bool-cases,
  length, set, length-set, arith,
}
use smart_money_falsifier.Score.UnionFind.{find, union}
use smart_money_falsifier.Score.UnionFind.Forest.{
  Forest, up, count_roots, up-set, rep_idem, find-Forest,
}

-- The representatives after the tree of `rb` hangs under `ra`, and how far they may be.
abbrev pub merged : (ℕ → ℕ) → ℕ → ℕ → ℕ → ℕ
merged rep ra rb x = if rep x == rb then ra else rep x

abbrev pub lifted : (ℕ → ℕ) → (ℕ → ℕ) → ℕ → ℕ → ℕ
lifted rep h rb x = if rep x == rb then suc (h x) else h x

-- One root fewer.
count_roots-merged :
    (m : ℕ) (rep : ℕ → ℕ) (ra rb : ℕ)
    → rep ra ≡ ra
    → rep rb ≡ rb
    → ra ≢ rb
    → count_roots m rep ≡ (if ltb rb m then 1 else 0) + count_roots m (merged rep ra rb)
count_roots-merged zero rep ra rb ea eb ne = ground arith
count_roots-merged (suc m) rep ra rb ea eb ne =
    ground (arith, count_roots-merged m rep ra rb ea eb ne)

module _ {n : ℕ} {p : List ℕ} {rep h : ℕ → ℕ} (t : Forest n p rep h) (ra rb : ℕ) where
  hang-Forest :
      ra < n
      → rb < n
      → rep ra ≡ ra
      → rep rb ≡ rb
      → ra ≢ rb
      → Forest n (set p rb ra) (merged rep ra rb) (lifted rep h rb)
  hang-Forest la lb ea eb ne = record {
    size = length-set p rb ra ∙ t.size;
    inside = λ y ly. ground (arith, at y, t.inside y ly);
    rep_inside = λ y ly. ground (arith, t.rep_inside y ly);
    rep_root = λ y ly. ground (arith, at ra, at (rep y), t.rep_root y ly, t.rep_root ra la);
    rep_up = λ y ly. ground (arith, at y, t.rep_up y ly);
    root_rep = λ y ly e. ground (arith, at y, t.root_rep y ly);
    falls = λ y ly e. ground (arith, at y, t.falls y ly, t.rep_up y ly, t.root_low ra la);
    above = λ y ly e. ground (arith, t.above y ly, rep_idem t y ly, t.root_low ra la);
    root_low = λ y ly e. ground (arith, t.root_low y ly);
    low = λ y ly. ground (arith, t.low y ly, count_roots-merged n rep ra rb ea eb ne);
  }
    where
      at : (y : ℕ) → up (set p rb ra) y ≡ (if rb == y then ra else up p y)
      at y = up-set p rb ra y (rw t.size lb)

count_roots_pos : (m : ℕ) (rep : ℕ → ℕ) (r : ℕ) → r < m → rep r ≡ r → 0 < count_roots m rep
count_roots_pos zero rep r lt e = absurd (omega arith)
count_roots_pos (suc m) rep r lt e = ground (arith, count_roots_pos m rep r)

-- The trees after `union parent a b`: those of `a` and `b` are one, and it kept the root of `a`.
pub record United (n : ℕ) (p : List ℕ) (rep h : ℕ → ℕ) (a b : ℕ) : Type 0 where
  pub rep' : ℕ → ℕ
  pub h' : ℕ → ℕ
  pub forest : Forest n p rep' h'
  pub joins : rep' a ≡ rep' b
  pub keeps : (x y : ℕ) → rep x ≡ rep y → rep' x ≡ rep' y
  pub only :
      (x y : ℕ)
      → rep' x ≡ rep' y
      → (rep x ≡ rep y) ⊎ ((rep x ≡ rep a) × (rep y ≡ rep b)) ⊎ ((rep x ≡ rep b) × (rep y ≡ rep a))

pub depth_lt :
    {n : ℕ} {p : List ℕ} {rep h : ℕ → ℕ} → Forest n p rep h → (x : ℕ) → x < n → h x < length p
depth_lt {n} {p} {rep} t x lt =
    omega (
      arith,
      t.low x lt,
      t.size,
      count_roots_pos n rep (rep x) (t.rep_inside x lt) (rep_idem t x lt),
    )

-- The test and the write at the end of `union`, on the roots of `a` and `b`.
hook-United :
    {n : ℕ} {q : List ℕ} {rep h : ℕ → ℕ} (a b : ℕ)
    → Forest n q rep h
    → a < n
    → b < n
    → United n (if rep a == rep b then q else set q (rep b) (rep a)) rep h a b
hook-United {n} {q} {rep} {h} a b t la lb = elim (Bool-cases (rep a == rep b)) [
  | inl e ↦ rw e (record {
    rep' = rep;
    h' = h;
    forest = t;
    joins = ground arith;
    keeps = λ x y k. k;
    only = λ x y k. inl k;
  })
  | inr e ↦ rw e (record {
    rep' = merged rep (rep a) (rep b);
    h' = lifted rep h (rep b);
    forest =
        hang-Forest t (rep a) (rep b) (t.rep_inside a la) (t.rep_inside b lb) (rep_idem t a la)
          (rep_idem t b lb) (ground arith);
    joins = ground arith;
    keeps = λ x y k. ground arith;
    only = λ x y k. ground arith;
  })
]

pub union-United :
    {n : ℕ} {p : List ℕ} {rep h : ℕ → ℕ} (a b : ℕ)
    → Forest n p rep h
    → a < n
    → b < n
    → United n (union p a b) rep h a b
unfolding union
union-United {n} {p} {rep} {h} a b t la lb =
    let fa = find-Forest (length p) p a t la (depth_lt t a la) in
    let fb = find-Forest (length p) (find (length p) p a).0 b fa.0 lb (depth_lt t b lb) in
    rw (fa.1, fb.1) (hook-United a b fb.0 la lb)
