-- ===== src/Score/UnionFind/Forest.antt =====
-- The parents form a forest, and `find` returns the root of a tree and keeps which trees there are.
use smart_money_falsifier.Base.{
  ℕ, zero, suc, ◌+◌, ◌≤◌, ◌<◌, ◌≡◌, sym, subst, ◌∙◌, ◌≢◌, inl, inr, List, if◌then◌else◌, ◌==◌,
  ==_iff, Bool-cases, length, get_or, set, length-set, get_or-set_self, get_or-set_ne, arith,
}
use smart_money_falsifier.Score.UnionFind.{find}

-- The parent of `x`.
abbrev pub up : List ℕ → ℕ → ℕ
up p x = get_or p x x

-- How many of the first `n` are their own representatives.
abbrev pub count_roots : ℕ → (ℕ → ℕ) → ℕ
count_roots zero rep = 0
count_roots (suc n) rep = (if rep n == n then 1 else 0) + count_roots n rep

-- `rep` sends each slot to its root, and `h` bounds how far the root is.
pub record Forest (n : ℕ) (p : List ℕ) (rep h : ℕ → ℕ) : Type 0 where
  pub size : length p ≡ n
  pub inside : (x : ℕ) → x < n → up p x < n
  pub rep_inside : (x : ℕ) → x < n → rep x < n
  pub rep_root : (x : ℕ) → x < n → up p (rep x) ≡ rep x
  pub rep_up : (x : ℕ) → x < n → rep (up p x) ≡ rep x
  pub root_rep : (x : ℕ) → x < n → up p x ≡ x → rep x ≡ x
  pub falls : (x : ℕ) → x < n → up p x ≢ x → h (up p x) < h x
  pub above : (x : ℕ) → x < n → rep x ≢ x → h (rep x) < h x
  pub root_low : (x : ℕ) → x < n → rep x ≡ x → h x ≡ 0
  pub low : (x : ℕ) → x < n → h x + count_roots n rep ≤ n

pub up-set :
    (p : List ℕ) (x v y : ℕ) → x < length p → up (set p x v) y ≡ (if x == y then v else up p y)
up-set p x v y lt = elim (Bool-cases (x == y)) [
  | inl e ↦ rw e (subst (λ z. up (set p x v) z ≡ v) ((==_iff x y).0 e) (get_or-set_self p x v x lt))
  | inr e ↦ rw e (get_or-set_ne p x y v y (ground arith))
]

module _ {n : ℕ} {p : List ℕ} {rep h : ℕ → ℕ} (t : Forest n p rep h) where
  pub rep_idem : (x : ℕ) → x < n → rep (rep x) ≡ rep x
  rep_idem x lt = t.root_rep (rep x) (t.rep_inside x lt) (t.rep_root x lt)

  not-rep_root : (x : ℕ) → x < n → up p x ≢ x → rep x ≢ x
  not-rep_root x lt ne e = ne (subst (λ r. up p r ≡ r) e (t.rep_root x lt))

  -- After a write of the root into `x`, the trees are the same.
  compress-Forest : (x : ℕ) → x < n → rep x ≢ x → Forest n (set p x (rep x)) rep h
  compress-Forest x lt ne = record {
    size = length-set p x (rep x) ∙ t.size;
    inside = λ y ly. ground (arith, at y, t.inside y ly, t.rep_inside x lt);
    rep_inside = t.rep_inside;
    rep_root = λ y ly. ground (arith, at (rep y), t.rep_root y ly, rep_idem y ly);
    rep_up = λ y ly. ground (arith, at y, t.rep_up y ly, rep_idem x lt);
    root_rep = λ y ly e. ground (arith, at y, t.root_rep y ly);
    falls = λ y ly e. ground (arith, at y, t.falls y ly, t.above x lt);
    above = t.above;
    root_low = t.root_low;
    low = t.low;
  }
    where
      at : (y : ℕ) → up (set p x (rep x)) y ≡ (if x == y then rep x else up p y)
      at y = up-set p x (rep x) y (rw t.size lt)

-- With more fuel than the root is far, `find` returns the root, and the forest stands for the same
-- trees.
pub find-Forest :
    {n : ℕ} {rep h : ℕ → ℕ} (fuel : ℕ) (p : List ℕ) (x : ℕ)
    → Forest n p rep h
    → x < n
    → h x < fuel
    → Forest n (find fuel p x).0 rep h × ((find fuel p x).1 ≡ rep x)
unfolding find
find-Forest zero p x t lt deep = absurd (omega arith)
find-Forest {n} {rep} {h} (suc fuel) p x t lt deep = elim (Bool-cases (up p x == x)) [
  | inl e ↦ rw (e, find) (t, sym (t.root_rep x lt ((==_iff _ x).0 e)))
  | inr e ↦
      let k : up p x ≢ x = ground arith in
      let ih = find-Forest fuel p (up p x) t (t.inside x lt) (omega (arith, t.falls x lt k)) in
      let root = ih.1 ∙ t.rep_up x lt in
      rw (e, find)
        (
          subst (λ r. Forest n (set (find fuel p (up p x)).0 x r) rep h) (sym root)
              (compress-Forest ih.0 x lt (not-rep_root t x lt k)),
          root,
        )
]
